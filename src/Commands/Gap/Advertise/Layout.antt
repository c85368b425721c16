-- ===== src/Commands/Gap/Advertise/Layout.antt =====
-- The payload of the start advertising command, byte for byte.
use btptester_core.Prelude.{
  ℕ, ◌≡◌, ◌<◌, ◌∙◌, refl, sym, ap, List, [], ◌∷◌, ◌++◌, append-nil, append_assoc, map, Bytes, All,
  length, lt→ltb,
}
use btptester_core.Result.{ok}
use btptester_core.Struct.{le32}
use btptester_core.Worker.{encode, utf8}
use btptester_core.Commands.Gap.Advertise.{
  AdData, plain, entry_bytes, ad_block, sd_block, adv_payload,
}

abbrev pub Entry : Type 0
Entry = ℕ × Bytes

-- Type and length are bytes.
abbrev pub EntryFits : Entry → Type 0
EntryFits (t, d) = (t < 256) × (length d < 256)

abbrev pub given : Entry → ℕ × AdData
given (t, d) = (t, plain d)

-- type, length and data of each entry
abbrev pub whole : List Entry → Bytes
whole [] = []
whole ((t, d) ∷ l) = t ∷ length d ∷ d ++ whole l

-- type and length alone
abbrev pub heads : List Entry → Bytes
heads [] = []
heads ((t, d) ∷ l) = t ∷ length d ∷ heads l

-- data alone
abbrev pub contents : List Entry → Bytes
contents [] = []
contents ((t, d) ∷ l) = d ++ contents l

three :
    (before a b d rest : Bytes)
    → before ++ a ++ b ++ d ++ rest ≡ before ++ (a ++ (b ++ (d ++ rest)))
three before a b d rest =
    rw
      (
        append_assoc (before ++ a ++ b) d rest,
        append_assoc (before ++ a) b (d ++ rest),
        append_assoc before a (b ++ (d ++ rest)),
      )
      refl

two : (before a b rest : Bytes) → before ++ a ++ b ++ rest ≡ before ++ (a ++ (b ++ rest))
two before a b rest = rw (append_assoc (before ++ a) b rest, append_assoc before a (b ++ rest)) refl

ad_block-whole :
    (ad : List Entry) (before : Bytes)
    → All EntryFits ad
    → ad_block (map given ad) before ≡ ok (before ++ whole ad)
unfolding ad_block entry_bytes
ad_block-whole [] before h = ap ok (sym (append-nil before))
ad_block-whole ((t, d) ∷ ad) before (h, hs) =
    rw (lt→ltb t 256 h.0, lt→ltb (length d) 256 h.1)
      (ad_block-whole ad (before ++ (t ∷ []) ++ (length d ∷ []) ++ d) hs
        ∙ ap ok (three before (t ∷ []) (length d ∷ []) d (whole ad)))

sd_block-heads :
    (sd : List Entry) (ad_ba sd_ba : Bytes)
    → All EntryFits sd
    → sd_block (map given sd) ad_ba sd_ba ≡ ok (ad_ba ++ heads sd, sd_ba ++ contents sd)
unfolding sd_block entry_bytes
sd_block-heads [] ad_ba sd_ba h = rw (append-nil ad_ba, append-nil sd_ba) refl
sd_block-heads ((t, d) ∷ sd) ad_ba sd_ba (h, hs) =
    rw (lt→ltb t 256 h.0, lt→ltb (length d) 256 h.1)
      (sd_block-heads sd (ad_ba ++ (t ∷ []) ++ (length d ∷ [])) (sd_ba ++ d) hs
        ∙ rw (two ad_ba (t ∷ []) (length d ∷ []) (heads sd), append_assoc sd_ba d (contents sd))
            refl)

-- Numbers that the command's fields can carry.
pub record AdvFits (ad sd : List Entry) (duration own_addr_type : ℕ) : Type 0 where
  pub ad_fits : All EntryFits ad
  pub sd_fits : All EntryFits sd
  pub ad_length_fits : length (whole ad ++ heads sd) < 256
  pub sd_length_fits : length (contents sd) < 256
  pub duration_fits : duration < 4294967296
  pub own_fits : own_addr_type < 128

-- For entries given as bytes, with numbers that fit in their fields: the two lengths, the
-- advertising data, the scan response data, the duration and the own address type. The type and
-- the length of every scan response entry stand at the end of the advertising data, and the scan
-- response data is the bare contents of its entries.
pub adv_payload-layout :
    (ad sd : List Entry) (duration own_addr_type : ℕ)
    → AdvFits ad sd duration own_addr_type
    → adv_payload (map given ad) (map given sd) duration own_addr_type
      ≡ ok (
          length (whole ad ++ heads sd) ∷ length (contents sd) ∷ (whole ad ++ heads sd)
          ++ contents sd
          ++ le32 duration
          ++ own_addr_type ∷ [])
unfolding adv_payload encode utf8
adv_payload-layout ad sd duration own f =
    rw
      (
        ad_block-whole ad [] f.ad_fits,
        sd_block-heads sd (whole ad) [] f.sd_fits,
        lt→ltb (length (whole ad ++ heads sd)) 256 f.ad_length_fits,
        lt→ltb (length (contents sd)) 256 f.sd_length_fits,
        lt→ltb duration 4294967296 f.duration_fits,
        lt→ltb own 128 f.own_fits,
      )
      refl
