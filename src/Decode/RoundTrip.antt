-- ===== src/Decode/RoundTrip.antt =====
-- Responses laid out as the protocol says are decoded to the attributes that they hold.
use btptester_core.Prelude.{
  ℕ, ◌+◌, ◌≡◌, refl, ap, sym, ◌∙◌, List, [], ◌∷◌, ◌++◌, append_assoc, Bytes, Text, IsBytes, All,
  arith, length, length-append, ◌⊎◌, drop-length-append, reverse, map, fun_ext,
}
use btptester_core.Result.{Result, ok}
use btptester_core.Struct.{le16}
use btptester_core.Struct.Laws.{raw-length-append}
use btptester_core.Uuid.{btp2uuid}
use btptester_core.Uuid.RoundTrip.{btp2uuid-hexlify}
use btptester_core.Hex.{upper, hexlify}
use mathlib.Core.List.{map-id}
use btptester_core.Decode.{
  AttrType, DiscAttr, dec_attr, dec_attrs, dec_disc_rsp, keep_uuid, gatt_dec_disc_rsp,
  gatt_cl_dec_disc_rsp,
}

-- One attribute as the protocol lays it out, from the docstrings of the decoders.
abbrev pub enc_attr : (t : AttrType) → DiscAttr Bytes t → Bytes
enc_attr AttrType.service (s, e, u) = le16 s ++ (le16 e ++ (length u ∷ u))
enc_attr AttrType.include (h, (s, e, u)) = le16 h ++ (le16 s ++ (le16 e ++ (length u ∷ u)))
enc_attr AttrType.characteristic (h, v, p, u) = le16 h ++ (le16 v ++ (p ∷ length u ∷ u))
enc_attr AttrType.descriptor (h, u) = le16 h ++ (length u ∷ u)

abbrev pub enc_attrs : (t : AttrType) → List (DiscAttr Bytes t) → Bytes
enc_attrs t [] = []
enc_attrs t (a ∷ l) = enc_attr t a ++ enc_attrs t l

-- Count, then the attributes.
abbrev pub enc_disc_rsp : (t : AttrType) → List (DiscAttr Bytes t) → Bytes
enc_disc_rsp t l = length l ∷ enc_attrs t l

abbrev pub uuid_bytes : (t : AttrType) → DiscAttr Bytes t → Bytes
uuid_bytes AttrType.service (s, e, u) = u
uuid_bytes AttrType.include (h, (s, e, u)) = u
uuid_bytes AttrType.characteristic (h, v, p, u) = u
uuid_bytes AttrType.descriptor (h, u) = u

module _ {U : Type 0} where
  abbrev pub with_uuid : (t : AttrType) → DiscAttr Bytes t → U → DiscAttr U t
  with_uuid AttrType.service (s, e, u) w = (s, e, w)
  with_uuid AttrType.include (h, (s, e, u)) w = (h, (s, e, w))
  with_uuid AttrType.characteristic (h, v, p, u) w = (h, v, p, w)
  with_uuid AttrType.descriptor (h, u) w = (h, w)

module _ {U : Type 0} (uuid_of : ℕ → Bytes → Result U) (text : Bytes → U) where
  dec_attr_lem :
      (t : AttrType) (a : DiscAttr Bytes t) (rest : Bytes)
      → uuid_of (length (uuid_bytes t a)) (uuid_bytes t a) ≡ ok (text (uuid_bytes t a))
      → dec_attr uuid_of t (enc_attr t a ++ rest)
        ≡ ok (with_uuid t a (text (uuid_bytes t a)), length (enc_attr t a))
  unfolding dec_attr
  dec_attr_lem AttrType.service (s, e, u) rest h = ground (arith, raw-length-append u rest)
  dec_attr_lem AttrType.include (k, (s, e, u)) rest h = ground (arith, raw-length-append u rest)
  dec_attr_lem AttrType.characteristic (k, v, p, u) rest h =
      ground (arith, raw-length-append u rest)
  dec_attr_lem AttrType.descriptor (k, u) rest h = ground (arith, raw-length-append u rest)

  abbrev Convertible : (t : AttrType) → DiscAttr Bytes t → Type 0
  Convertible t a = uuid_of (length (uuid_bytes t a)) (uuid_bytes t a) ≡ ok (text (uuid_bytes t a))

  abbrev converted : (t : AttrType) → DiscAttr Bytes t → DiscAttr U t
  converted t a = with_uuid t a (text (uuid_bytes t a))

  dec_attrs_lem :
      (t : AttrType) (l : List (DiscAttr Bytes t)) (offset : ℕ) (before rest : Bytes)
      → All (Convertible t) l
      → offset ≡ length before
      → dec_attrs uuid_of t (length l) offset (before ++ (enc_attrs t l ++ rest))
        ≡ ok (map (converted t) l)
  unfolding dec_attrs
  dec_attrs_lem t [] offset before rest h e = refl
  dec_attrs_lem t (a ∷ l) offset before rest h e =
      rw
        (
          e,
          drop-length-append before,
          append_assoc (enc_attr t a) (enc_attrs t l) rest,
          dec_attr_lem t a (enc_attrs t l ++ rest) h.0,
        )
        (rw (← append_assoc before (enc_attr t a) (enc_attrs t l ++ rest)) (
          rw (
            dec_attrs_lem t l (length before + length (enc_attr t a)) (before ++ enc_attr t a) rest
              h.1 (sym (length-append before (enc_attr t a))))))

  dec_disc_rsp_lem :
      (t : AttrType) (l : List (DiscAttr Bytes t)) (rest : Bytes)
      → All (Convertible t) l
      → dec_disc_rsp uuid_of t (enc_disc_rsp t l ++ rest) ≡ ok (map (converted t) l)
  unfolding dec_disc_rsp
  dec_disc_rsp_lem t l rest h = dec_attrs_lem t l 0 [] rest h refl

All-keep : (t : AttrType) (l : List (DiscAttr Bytes t)) → All (Convertible keep_uuid (λ u. u) t) l
All-keep t [] = tt
All-keep t (a ∷ l) = (refl, All-keep t l)

converted_keep : (t : AttrType) (a : DiscAttr Bytes t) → converted keep_uuid (λ u. u) t a ≡ a
converted_keep AttrType.service a = refl
converted_keep AttrType.include a = refl
converted_keep AttrType.characteristic a = refl
converted_keep AttrType.descriptor a = refl

-- A discovery response that holds attributes of one type, laid out as the
-- docstrings say, is decoded by `gatt_dec_disc_rsp` to exactly those attributes in order, and
-- bytes behind the last one are ignored.
pub gatt_dec_disc_rsp-enc :
    (t : AttrType) (l : List (DiscAttr Bytes t)) (rest : Bytes)
    → gatt_dec_disc_rsp t (enc_disc_rsp t l ++ rest) ≡ ok l
unfolding gatt_dec_disc_rsp
gatt_dec_disc_rsp-enc t l rest =
    dec_disc_rsp_lem keep_uuid (λ u. u) t l rest (All-keep t l)
    ∙ ap ok (rw (fun_ext (converted_keep t)) (map-id l))

-- UUIDs of 2 or 16 bytes.
abbrev pub IsUuid : Bytes → Type 0
IsUuid u = ((length u ≡ 2) ⊎ (length u ≡ 16)) × IsBytes u

-- a UUID in big-endian digits
abbrev pub uuid_text : Bytes → Text
uuid_text u = upper (hexlify (reverse u))

All-uuid :
    (t : AttrType) (l : List (DiscAttr Bytes t))
    → All (λ a. IsUuid (uuid_bytes t a)) l
    → All (Convertible btp2uuid uuid_text t) l
All-uuid t [] h = tt
All-uuid t (a ∷ l) h = (btp2uuid-hexlify (uuid_bytes t a) h.0.0 h.0.1, All-uuid t l h.1)

-- A discovery response that holds attributes of one type, each with a UUID of 2 or 16 bytes, laid
-- out as the docstrings say, is decoded by `gatt_cl_dec_disc_rsp` to exactly those attributes in
-- order, with the UUIDs as text in big-endian upper-case digits; bytes behind the last attribute
-- are ignored.
pub gatt_cl_dec_disc_rsp-enc :
    (t : AttrType) (l : List (DiscAttr Bytes t)) (rest : Bytes)
    → All (λ a. IsUuid (uuid_bytes t a)) l
    → gatt_cl_dec_disc_rsp t (enc_disc_rsp t l ++ rest)
      ≡ ok (map (λ a. with_uuid t a (uuid_text (uuid_bytes t a))) l)
unfolding gatt_cl_dec_disc_rsp
gatt_cl_dec_disc_rsp-enc t l rest h = dec_disc_rsp_lem btp2uuid uuid_text t l rest (All-uuid t l h)
