-- ===== src/Hex.antt =====
-- binascii.hexlify and unhexlify, and the string methods that the program puts round them
-- (lower, upper, split, join, replace, zfill, format). Texts are lists of code points.
pub mod Laws
use btptester_core.Prelude.{
  ℕ, zero, suc, ◌+◌, ◌-◌, ◌*◌, ◌/◌, ◌%◌, Bool, ◌&&◌, ◌||◌, List, [], ◌∷◌, ◌++◌, Bytes, Text, map,
  ltb, leb, length, ◌==◌, if◌then◌else◌,
}
use btptester_core.Result.{Result, ok, err, value_error, ◌>>=◌}

-- '0' to '9' and 'a' to 'f'
unfoldable pub hex_digit : ℕ → ℕ
hex_digit n = if ltb n 10 then 48 + n else 87 + n

unfoldable pub hexlify : Bytes → Text
unfolding hex_digit
hexlify [] = []
hexlify (b ∷ bs) = hex_digit (b / 16) ∷ hex_digit (b % 16) ∷ hexlify bs

-- the value of a digit in either case; binascii.Error otherwise
unfoldable pub digit_value : ℕ → Result ℕ
digit_value c =
    if leb b'0' c && leb c b'9'
    then ok (c - 48)
    else if leb b'a' c && leb c b'f'
    then ok (c - 87)
    else if leb b'A' c && leb c b'F'
    then ok (c - 55)
    else err value_error

-- one byte from two digits, in front of what the rest gives
abbrev byte_of_digits : Result ℕ → Result ℕ → Result Bytes → Result Bytes
byte_of_digits (ok hi) (ok lo) (ok bs) = ok ((hi * 16 + lo) ∷ bs)
byte_of_digits _ _ _ = err value_error

unfoldable pub unhexlify : Text → Result Bytes
unfolding digit_value
unhexlify [] = ok []
unhexlify (c ∷ []) = err value_error
unhexlify (c ∷ d ∷ rest) = byte_of_digits (digit_value c) (digit_value d) (unhexlify rest)

-- bytes.fromhex: blanks in front of a byte are skipped
abbrev is_blank : ℕ → Bool
is_blank c = (c == 32) || (leb 9 c && leb c 13)

unfoldable pub fromhex : Text → Result Bytes
unfolding digit_value
fromhex [] = ok []
fromhex (c ∷ []) = if is_blank c then ok [] else err value_error
fromhex (c ∷ d ∷ rest) =
    let skipped = fromhex (d ∷ rest) in
    let behind = fromhex rest in
    if is_blank c then skipped else byte_of_digits (digit_value c) (digit_value d) behind

unfoldable pub lower_char : ℕ → ℕ
lower_char c = if leb b'A' c && leb c b'Z' then c + 32 else c

unfoldable pub upper_char : ℕ → ℕ
upper_char c = if leb b'a' c && leb c b'z' then c - 32 else c

-- str.lower and str.upper on ASCII
unfoldable pub lower : Text → Text
unfolding lower_char
lower = map lower_char

unfoldable pub upper : Text → Text
unfolding upper_char
upper = map upper_char

-- puts a character in front of the first piece
abbrev onto_first : ℕ → List Text → List Text
onto_first c [] = (c ∷ []) ∷ []
onto_first c (p ∷ ps) = (c ∷ p) ∷ ps

-- s.split(sep) for a separator of one character
unfoldable pub split : ℕ → Text → List Text
split sep [] = [] ∷ []
split sep (c ∷ s) = let rest = split sep s in if c == sep then [] ∷ rest else onto_first c rest

-- "".join(pieces)
unfoldable pub join : List Text → Text
join [] = []
join (p ∷ ps) = p ++ join ps

-- s.replace(c, "") for one character
unfoldable pub remove_char : ℕ → Text → Text
remove_char x [] = []
remove_char x (c ∷ s) = let rest = remove_char x s in if c == x then rest else c ∷ rest

-- format(n, 'x'): lower case, no leading zeros. The fuel bounds the number of digits.
unfoldable pub hex_digits : ℕ → ℕ → Text
hex_digits zero n = []
hex_digits (suc f) n =
    let more = hex_digits f (n / 16) ++ hex_digit (n % 16) ∷ [] in
    if ltb n 16 then hex_digit n ∷ [] else more

unfoldable pub format_x : ℕ → Text
unfolding hex_digits
format_x n = hex_digits (suc (suc (suc (suc n)))) n

-- s.zfill(width) for a text that does not begin with a sign
unfoldable pub pad_zeros : ℕ → Text → Text
pad_zeros zero s = s
pad_zeros (suc k) s = b'0' ∷ pad_zeros k s

unfoldable pub zfill : ℕ → Text → Text
unfolding pad_zeros
zfill width s = pad_zeros (width - length s) s

-- int(s, 16) for a text of digits, as the program only calls it
abbrev pub value_or_zero : Result ℕ → ℕ
value_or_zero (ok n) = n
value_or_zero (err e) = 0

unfoldable pub int_hex_from : ℕ → Text → ℕ
unfolding digit_value
int_hex_from acc [] = acc
int_hex_from acc (c ∷ s) = int_hex_from (acc * 16 + value_or_zero (digit_value c)) s

unfoldable pub int_hex : Text → ℕ
unfolding int_hex_from
int_hex s = int_hex_from 0 s
