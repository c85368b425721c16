-- ===== src/Ad.antt =====
-- Advertising data in pybtp/btp.py: `parse_ad` and `ad_find_uuid16`.
pub mod RoundTrip
use btptester_core.Prelude.{
  ℕ, zero, suc, ◌+◌, ◌-◌, Bool, ◌||◌, Option, none, some, List, [], ◌∷◌, ◌++◌, Bytes, Text, take,
  drop, length, ◌==◌, if◌then◌else◌,
}
use btptester_core.Result.{Result, ok, err, assertion_error, index_error, ◌>>=◌}
use btptester_core.Uuid.{btp2uuid}

-- type and data of one record
abbrev pub Record : Type 0
Record = ℕ × Bytes

abbrev add_record : Record → Option (Result (List Record)) → Option (Result (List Record))
add_record r none = none
add_record r (some (ok rs)) = some (ok (r ∷ rs))
add_record r (some (err e)) = some (err e)

-- one round: `assert len(data) == length`, then `data[0]`, which a length of 0 has not
abbrev one_record : ℕ → Bytes → Option (Result (List Record)) → Option (Result (List Record))
one_record len [] later = if len == 0 then some (err index_error) else some (err assertion_error)
one_record len (t ∷ dat) later =
    if suc (length dat) == len then add_record (t, dat) later else some (err assertion_error)

-- the loop over what is left of the data, one round for each unit of fuel; `none` if the fuel
-- runs out
unfoldable pub parse_ad_from : ℕ → Bytes → Option (Result (List Record))
parse_ad_from zero ad = none
parse_ad_from (suc fuel) [] = some (ok [])
parse_ad_from (suc fuel) (len ∷ rest) =
    let later = parse_ad_from fuel (drop len rest) in one_record len (take len rest) later

-- The fuel is one more than the length, and each round takes at least one byte.
unfoldable pub parse_ad : Bytes → Option (Result (List Record))
unfolding parse_ad_from
parse_ad ad = parse_ad_from (suc (length ad)) ad

-- AdType.uuid16_some and AdType.uuid16_full
abbrev pub uuid16_some : ℕ
uuid16_some = 0x02

abbrev pub uuid16_full : ℕ
uuid16_full = 0x03

-- [data[i:i + 2] for i in range(0, len(data), 2)]
unfoldable pub pieces : Bytes → List Bytes
pieces [] = []
pieces (a ∷ []) = (a ∷ []) ∷ []
pieces (a ∷ b ∷ rest) = (a ∷ b ∷ []) ∷ pieces rest

unfoldable pub uuids_of : List Bytes → Result (List Text)
uuids_of [] = ok []
uuids_of (u ∷ us) = do t ← btp2uuid (length u) u; ts ← uuids_of us; ok (t ∷ ts)

unfoldable pub ad_find_uuid16 : List Record → Result (List Text)
unfolding uuids_of pieces
ad_find_uuid16 [] = ok []
ad_find_uuid16 ((t, dat) ∷ ad) = do
  here ← if t == uuid16_some || t == uuid16_full then uuids_of (pieces dat) else ok []
  later ← ad_find_uuid16 ad
  ok (here ++ later)
