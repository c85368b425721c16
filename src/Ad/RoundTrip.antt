-- ===== src/Ad/RoundTrip.antt =====
-- Advertising data laid out as the Bluetooth specification says is parsed to its records.
use btptester_core.Prelude.{
  ℕ, zero, suc, ◌<◌, ◌≡◌, ◌≢◌, refl, Option, none, some, List, [], ◌∷◌, ◌++◌, Bytes, arith, length,
  length-append, length-drop, take, drop, take-length-append, drop-length-append,
}
use btptester_core.Result.{Result, ok, err}
use btptester_core.Ad.{Record, one_record, parse_ad_from, parse_ad}

-- A record: its length, which counts the type, its type and its data.
abbrev pub enc_record : Record → Bytes
enc_record (t, dat) = suc (length dat) ∷ t ∷ dat

abbrev pub enc_ad : List Record → Bytes
enc_ad [] = []
enc_ad (r ∷ rs) = enc_record r ++ enc_ad rs

parse_enc_ad_from :
    (fuel : ℕ) (rs : List Record)
    → length (enc_ad rs) < fuel
    → parse_ad_from fuel (enc_ad rs) ≡ some (ok rs)
unfolding parse_ad_from
parse_enc_ad_from zero rs h = absurd (omega arith)
parse_enc_ad_from (suc fuel) [] h = refl
parse_enc_ad_from (suc fuel) ((t, dat) ∷ rs) h =
    rw
      (
        take-length-append dat (enc_ad rs),
        drop-length-append dat (enc_ad rs),
        parse_enc_ad_from fuel rs (omega (arith, length-append dat (enc_ad rs))),
      )
      (ground arith)

-- Records of any types and data, laid out one behind the other, are parsed to exactly these
-- records in order.
pub parse_ad-enc_ad : (rs : List Record) → parse_ad (enc_ad rs) ≡ some (ok rs)
unfolding parse_ad
parse_ad-enc_ad rs = parse_enc_ad_from (suc (length (enc_ad rs))) rs (omega arith)

one_record-ne-none :
    (len : ℕ) (xs : Bytes) (later : Option (Result (List Record)))
    → later ≢ none
    → one_record len xs later ≢ none
one_record-ne-none len [] later h = ground arith
one_record-ne-none len (t ∷ dat) none h = absurd (h refl)
one_record-ne-none len (t ∷ dat) (some (ok rs)) h = ground arith
one_record-ne-none len (t ∷ dat) (some (err e)) h = ground arith

parse_ad_from_ends : (fuel : ℕ) (ad : Bytes) → length ad < fuel → parse_ad_from fuel ad ≢ none
unfolding parse_ad_from
parse_ad_from_ends zero ad h = absurd (omega arith)
parse_ad_from_ends (suc fuel) [] h = ground arith
parse_ad_from_ends (suc fuel) (len ∷ rest) h =
    one_record-ne-none len (take len rest) _
      (parse_ad_from_ends fuel (drop len rest) (omega (arith, length-drop len rest)))

-- On any bytes whatever `parse_ad` ends, with records or with an exception.
pub parse_ad_ends : (ad : Bytes) → parse_ad ad ≢ none
unfolding parse_ad
parse_ad_ends ad = parse_ad_from_ends (suc (length ad)) ad (omega arith)
