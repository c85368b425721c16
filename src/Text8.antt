-- ===== src/Text8.antt =====
-- bytes.decode() as the program uses it: UTF-8, read byte by byte.
pub mod RoundTrip
use btptester_core.Prelude.{
  ℕ, zero, suc, ◌+◌, ◌-◌, ◌*◌, ◌&&◌, Bool, Option, none, some, List, [], ◌∷◌, Bytes, Text, leb, ltb,
  ◌==◌, if◌then◌else◌,
}
use btptester_core.Result.{Result, ok, err, value_error}

-- Between two characters; inside one, with the number of bytes that are to come after the next,
-- the value so far and the range of the next byte; or behind an error.
pub data Decoder : Type 0 where
  start failed : Decoder
  inside : ℕ → ℕ → ℕ → ℕ → Decoder

abbrev continued : ℕ → ℕ → Decoder
continued n acc = inside n acc 0x80 0xbf

-- the first byte of a character
unfoldable pub first_byte : ℕ → Decoder × Option ℕ
first_byte b =
    if ltb b 0x80
    then (start, some b)
    else if leb 0xc2 b && leb b 0xdf
    then (continued 0 (b - 0xc0), none)
    else if b == 0xe0
    then (inside 1 0 0xa0 0xbf, none)
    else if b == 0xed
    then (inside 1 0xd 0x80 0x9f, none)
    else if leb 0xe1 b && leb b 0xef
    then (continued 1 (b - 0xe0), none)
    else if b == 0xf0
    then (inside 2 0 0x90 0xbf, none)
    else if leb 0xf1 b && leb b 0xf3
    then (continued 2 (b - 0xf0), none)
    else if b == 0xf4
    then (inside 2 4 0x80 0x8f, none)
    else (failed, none)

abbrev next_byte : ℕ → ℕ → Decoder × Option ℕ
next_byte zero value = (start, some value)
next_byte (suc n) value = (continued n value, none)

unfoldable pub step : Decoder → ℕ → Decoder × Option ℕ
unfolding first_byte
step start b = first_byte b
step failed b = (failed, none)
step (inside n acc lo hi) b =
    if leb lo b && leb b hi then next_byte n (acc * 64 + (b - 0x80)) else (failed, none)

abbrev emit : Option ℕ → Result Text → Result Text
emit none s = s
emit (some c) (ok s) = ok (c ∷ s)
emit (some c) (err e) = err e

abbrev at_end : Decoder → Result Text
at_end start = ok []
at_end _ = err value_error

unfoldable pub decode_from : Decoder → Bytes → Result Text
unfolding step
decode_from d [] = at_end d
decode_from d (b ∷ bs) = let (next, out) = step d b in emit out (decode_from next bs)

-- UnicodeDecodeError is a ValueError
unfoldable pub decode : Bytes → Result Text
unfolding decode_from
decode = decode_from start
