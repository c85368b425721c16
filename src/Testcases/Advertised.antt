-- ===== src/Testcases/Advertised.antt =====
-- What the test cases' search for an advertisement finds.
use mathlib.Core.List.{map-append}
use btptester_core.Prelude.{
  ◌%◌, ℕ, ◌≡◌, refl, sym, ap, ◌∙◌, arith, Bool, true, false, ◌||◌, Bool-cases, inl, inr, List, [],
  ◌∷◌, ◌++◌, map, Bytes, IsBytes, All, Text, text_eq, text_eq_refl, text_eq→eq, length, reverse,
  ◌==◌, if◌then◌else◌,
}
use btptester_core.Result.{Result, ok, err, value_error, ◌>>=◌}
use btptester_core.Hex.{hexlify, upper}
use btptester_core.Uuid.{btp2uuid, uuid2btp}
use btptester_core.Uuid.RoundTrip.{btp2uuid-hexlify, uuid2btp-btp2uuid}
use btptester_core.Ad.{Record, uuid16_some, uuid16_full, pieces, uuids_of, ad_find_uuid16}
use btptester_core.Ad.RoundTrip.{enc_ad, parse_ad-enc_ad}
use btptester_core.Gap.{LeAdv}
use btptester_core.Events.Args.{found}
use btptester_core.Testcases.Utils.{find_adv_by_uuid, is_in, verify_uuid}

-- The UUIDs in the lists of UUIDs among the records.
abbrev pub is_uuid_list : ℕ → Bool
is_uuid_list t = (t == uuid16_some) || (t == uuid16_full)

abbrev pub offered : List Record → List Bytes
offered [] = []
offered ((t, dat) ∷ rs) = if is_uuid_list t then pieces dat ++ offered rs else offered rs

abbrev pub IsUuid16 : Bytes → Type 0
IsUuid16 u = (length u ≡ 2) × IsBytes u

abbrev name : Bytes → Text
name u = upper (hexlify (reverse u))

name_lem : (u : Bytes) → IsUuid16 u → btp2uuid (length u) u ≡ ok (name u)
name_lem u (n, h) = btp2uuid-hexlify u (inl n) h

sent_back : (u : Bytes) → IsUuid16 u → uuid2btp (name u) ≡ ok u
sent_back u (n, h) =
    ap (λ r. r >>= uuid2btp) (sym (name_lem u (n, h))) ∙ uuid2btp-btp2uuid u (inl n) h

-- The names of two UUIDs are the same only if the UUIDs are.
name-injective : (u v : Bytes) → IsUuid16 u → IsUuid16 v → name u ≡ name v → u ≡ v
name-injective u v hu hv same =
    let back : ok u ≡ ok v = sym (sent_back u hu) ∙ ap uuid2btp same ∙ sent_back v hv in cc

text_eq-name : (u v : Bytes) → IsUuid16 u → IsUuid16 v → text_eq (name u) (name v) ≡ text_eq u v
text_eq-name u v hu hv = elim (Bool-cases (text_eq u v)) [
  | inl y ↦ rw (text_eq→eq u v y, text_eq_refl v) (text_eq_refl (name v))
  | inr n ↦ elim (Bool-cases (text_eq (name u) (name v))) [
    | inl y ↦
        let same = name-injective u v hu hv (text_eq→eq (name u) (name v) y) in
        let yes' : text_eq u v ≡ true = rw same (text_eq_refl v) in y ∙ sym yes'
    | inr n' ↦ n' ∙ sym n
  ]
]

is_in-name :
    (u : Bytes) (us : List Bytes)
    → IsUuid16 u
    → All IsUuid16 us
    → is_in (name u) (map name us) ≡ is_in u us
unfolding is_in
is_in-name u [] hu hs = refl
is_in-name u (v ∷ us) hu (hv, hs) = rw (text_eq-name u v hu hv, is_in-name u us hu hs) refl

uuids_of-name : (us : List Bytes) → All IsUuid16 us → uuids_of us ≡ ok (map name us)
unfolding uuids_of
uuids_of-name [] h = refl
uuids_of-name (u ∷ us) (hu, hs) = rw (name_lem u hu, uuids_of-name us hs) refl

All-split-left : (xs ys : List Bytes) → All IsUuid16 (xs ++ ys) → All IsUuid16 xs
All-split-left [] ys h = tt
All-split-left (x ∷ xs) ys (h, hs) = (h, All-split-left xs ys hs)

All-split-right : (xs ys : List Bytes) → All IsUuid16 (xs ++ ys) → All IsUuid16 ys
All-split-right [] ys h = h
All-split-right (x ∷ xs) ys (h, hs) = All-split-right xs ys hs

find_step :
    (b : Bool) (dat : Bytes) (rs : List Record)
    → All IsUuid16 (if b then pieces dat ++ offered rs else offered rs)
    → (All IsUuid16 (offered rs) → ad_find_uuid16 rs ≡ ok (map name (offered rs)))
    → ((if b then uuids_of (pieces dat) else ok []) >>= λ here.
        ad_find_uuid16 rs >>= λ later. ok (here ++ later))
      ≡ ok (map name (if b then pieces dat ++ offered rs else offered rs))
find_step true dat rs h ih =
    rw
      (
        uuids_of-name (pieces dat) (All-split-left (pieces dat) (offered rs) h),
        ih (All-split-right (pieces dat) (offered rs) h),
        map-append,
      )
      refl
find_step false dat rs h ih = rw (ih h) refl

ad_find_uuid16-offered :
    (rs : List Record) → All IsUuid16 (offered rs) → ad_find_uuid16 rs ≡ ok (map name (offered rs))
unfolding ad_find_uuid16
ad_find_uuid16-offered [] h = refl
ad_find_uuid16-offered ((t, dat) ∷ rs) h =
    find_step (is_uuid_list t) dat rs h (ad_find_uuid16-offered rs)

-- An advertisement of any records whose lists of UUIDs have whole UUIDs in them passes the test
-- for a UUID exactly if one of those lists has this UUID.
pub verify_uuid-offered :
    (u : Bytes) (rs : List Record) (adv : LeAdv)
    → IsUuid16 u
    → adv.eir ≡ enc_ad rs
    → All IsUuid16 (offered rs)
    → verify_uuid u (found adv) ≡ ok (is_in u (offered rs))
unfolding verify_uuid find_adv_by_uuid
verify_uuid-offered u rs adv hu he hs =
    rw
      (
        name_lem u hu,
        he,
        parse_ad-enc_ad rs,
        ad_find_uuid16-offered rs hs,
        is_in-name u (offered rs) hu hs,
      )
      refl

-- The pieces of a list with a byte too many end in a single byte.
half_uuid : (dat : Bytes) → length dat % 2 ≡ 1 → uuids_of (pieces dat) ≡ err value_error
unfolding uuids_of pieces btp2uuid
half_uuid [] h = absurd (omega arith)
half_uuid (a ∷ []) h = refl
half_uuid (a ∷ b ∷ dat) h = rw (half_uuid dat (omega arith)) refl

half_step :
    (b : Bool) (dat : Bytes) (before : List Record) (rest : Result (List Text))
    → All IsUuid16 (if b then pieces dat ++ offered before else offered before)
    → (All IsUuid16 (offered before) → rest ≡ err value_error)
    → ((if b then uuids_of (pieces dat) else ok []) >>= λ here.
        rest >>= λ later. ok (here ++ later))
      ≡ err value_error
half_step true dat before rest h ih =
    rw
      (
        uuids_of-name (pieces dat) (All-split-left (pieces dat) (offered before) h),
        ih (All-split-right (pieces dat) (offered before) h),
      )
      refl
half_step false dat before rest h ih = rw (ih h) refl

module _ (t : ℕ) (dat : Bytes) (after : List Record) (is_list : is_uuid_list t ≡ true)
    (odd : length dat % 2 ≡ 1) where
  find_half :
      (before : List Record)
      → All IsUuid16 (offered before)
      → ad_find_uuid16 (before ++ (t, dat) ∷ after) ≡ err value_error
  unfolding ad_find_uuid16
  find_half [] h = rw (is_list, half_uuid dat odd) refl
  find_half ((t', dat') ∷ before) h =
      half_step (is_uuid_list t') dat' before (ad_find_uuid16 (before ++ (t, dat) ∷ after)) h
        (find_half before)

  -- The test raises ValueError on an advertisement that has a list of UUIDs with a byte too many,
  -- behind records whose lists have whole UUIDs in them.
  pub verify_uuid-half :
      (u : Bytes) (before : List Record) (adv : LeAdv)
      → IsUuid16 u
      → All IsUuid16 (offered before)
      → adv.eir ≡ enc_ad (before ++ (t, dat) ∷ after)
      → verify_uuid u (found adv) ≡ err value_error
  unfolding verify_uuid find_adv_by_uuid
  verify_uuid-half u before adv hu hb he =
      rw (name_lem u hu, he, parse_ad-enc_ad (before ++ (t, dat) ∷ after), find_half before hb) refl
