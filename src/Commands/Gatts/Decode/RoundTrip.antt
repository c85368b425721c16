-- ===== src/Commands/Gatts/Decode/RoundTrip.antt =====
-- Attribute lists laid out as the protocol says are decoded to the attributes that they hold.
use btptester_core.Prelude.{
  ℕ, ◌+◌, ◌≡◌, refl, List, [], ◌∷◌, ◌++◌, append_assoc, Bytes, All, arith, length, length-append,
  map,
}
use btptester_core.Result.{ok}
use btptester_core.Struct.{le16, unpack}
use btptester_core.Struct.Laws.{raw-length-append, raw_all}
use btptester_core.Uuid.RoundTrip.{btp2uuid-hexlify}
use btptester_core.Decode.RoundTrip.{IsUuid, uuid_text}
use btptester_core.Commands.Gatts.Decode.{
  AttrInfo, minus, s_s, h_b_b_s, dec_infos, dec_gatts_get_attrs_rp,
}

-- handle, permissions and the bytes of the type
abbrev pub Entry : Type 0
Entry = ℕ × ℕ × Bytes

abbrev pub enc_entries : List Entry → Bytes
enc_entries [] = []
enc_entries ((h, p, u) ∷ l) = le16 h ++ (p ∷ length u ∷ u ++ enc_entries l)

-- The count, then the entries.
abbrev pub enc_get_attrs : List Entry → Bytes
enc_get_attrs l = length l ∷ enc_entries l

abbrev pub info_of : Entry → AttrInfo
info_of (h, p, u) = (h, p, uuid_text u)

minus_lem : (a b : ℕ) → minus (a + b) a ≡ ok b
unfolding minus
minus_lem a b = ground arith

h_b_b_s_lem :
    (h p n : ℕ) (xs : Bytes)
    → unpack (h_b_b_s (length xs)) (le16 h ++ (p ∷ n ∷ xs)) ≡ ok (h, p, n, xs)
h_b_b_s_lem h p n xs = ground (arith, raw_all xs)

s_s_lem : (u xs : Bytes) → unpack (s_s (length u) (length xs)) (u ++ xs) ≡ ok (u, xs)
s_s_lem u xs = ground (arith, raw-length-append u xs, raw_all xs)

dec_infos-entries :
    (l : List Entry) (rest : Bytes)
    → All (λ e. IsUuid e.2) l
    → dec_infos (length l) (length (enc_entries l ++ rest)) (enc_entries l ++ rest)
      ≡ ok (map info_of l)
unfolding dec_infos
dec_infos-entries [] rest a = refl
dec_infos-entries ((h, p, u) ∷ l) rest (k, a) =
    let xs = enc_entries l ++ rest in
    ground (
      arith,
      append_assoc u (enc_entries l) rest,
      minus_lem 4 (length (u ++ xs)),
      raw_all (u ++ xs),
      length-append u xs,
      minus_lem (length u) (length xs),
      raw-length-append u xs,
      raw_all xs,
      btp2uuid-hexlify u k.0 k.1,
      dec_infos-entries l rest a,
    )

-- A list of attributes whose types are UUIDs of 2 or 16 bytes, laid out as the protocol says, is
-- decoded by `dec_gatts_get_attrs_rp` to exactly those attributes in order, their types as text in
-- big-endian upper-case digits; bytes behind the last attribute are ignored.
pub dec_gatts_get_attrs_rp-enc :
    (l : List Entry) (rest : Bytes)
    → All (λ e. IsUuid e.2) l
    → dec_gatts_get_attrs_rp (enc_get_attrs l ++ rest) (length (enc_get_attrs l ++ rest))
      ≡ ok (map info_of l)
unfolding dec_gatts_get_attrs_rp
dec_gatts_get_attrs_rp-enc l rest a =
    let xs = enc_entries l ++ rest in
    ground (arith, minus_lem 1 (length xs), raw_all xs, dec_infos-entries l rest a)
