-- ===== src/Hex/Laws.antt =====
-- Round trips of the hexadecimal texts, in either case.
use btptester_core.Prelude.{
  zero, suc, ◌-◌, ℕ, ◌*◌, ◌/◌, ◌%◌, ◌<◌, ◌≡◌, refl, false, List, [], ◌∷◌, ◌++◌, Bytes, IsBytes,
  Text, All, arith, length, ◌==◌, take, ap, drop, sym, ◌∙◌, take-append-drop,
}
use btptester_core.Result.{ok}
use btptester_core.Hex.{
  hex_digit, hexlify, digit_value, unhexlify, upper_char, lower, upper, split, join, remove_char,
  onto_first, zfill, pad_zeros, suc, format_x,
}

digit_value-hex_digit : (n : ℕ) → n < 16 → digit_value (hex_digit n) ≡ ok n
unfolding digit_value hex_digit
digit_value-hex_digit n h = ground arith

digit_value-upper_char : (n : ℕ) → n < 16 → digit_value (upper_char (hex_digit n)) ≡ ok n
unfolding digit_value hex_digit upper_char
digit_value-upper_char n h = ground arith

pub unhexlify-hexlify : (bs : Bytes) → IsBytes bs → unhexlify (hexlify bs) ≡ ok bs
unfolding unhexlify hexlify
unhexlify-hexlify [] h = refl
unhexlify-hexlify (b ∷ bs) h =
    rw
      (
        digit_value-hex_digit (b / 16) (omega arith),
        digit_value-hex_digit (b % 16) (omega arith),
        unhexlify-hexlify bs h.1,
      )
      (ground arith)

pub unhexlify-upper-hexlify : (bs : Bytes) → IsBytes bs → unhexlify (upper (hexlify bs)) ≡ ok bs
unfolding unhexlify hexlify upper
unhexlify-upper-hexlify [] h = refl
unhexlify-upper-hexlify (b ∷ bs) h =
    rw
      (
        digit_value-upper_char (b / 16) (omega arith),
        digit_value-upper_char (b % 16) (omega arith),
        unhexlify-upper-hexlify bs h.1,
      )
      (ground arith)

-- Hexadecimal text is in lower case already.
pub lower-hexlify : (bs : Bytes) → IsBytes bs → lower (hexlify bs) ≡ hexlify bs
unfolding hexlify lower
lower-hexlify [] h = refl
lower-hexlify (b ∷ bs) h = ground (arith, lower-hexlify bs h.1)

pub length-hexlify : (bs : Bytes) → length (hexlify bs) ≡ 2 * length bs
unfolding hexlify
length-hexlify [] = refl
length-hexlify (b ∷ bs) = omega (arith, length-hexlify bs)

-- No digit is `:` or `-`, so splitting and removing separators changes nothing.
abbrev pub Lacks : ℕ → Text → Type 0
Lacks x = All (λ c. (c == x) ≡ false)

pub hexlify-Lacks : (x : ℕ) (bs : Bytes) → x < 48 → IsBytes bs → Lacks x (hexlify bs)
unfolding hexlify hex_digit
hexlify-Lacks x [] hx h = tt
hexlify-Lacks x (b ∷ bs) hx h = (ground arith, (ground arith, hexlify-Lacks x bs hx h.1))

pub hexlify-Lacks_colon : (bs : Bytes) → IsBytes bs → Lacks b':' (hexlify bs)
unfolding hexlify hex_digit
hexlify-Lacks_colon [] h = tt
hexlify-Lacks_colon (b ∷ bs) h = (ground arith, (ground arith, hexlify-Lacks_colon bs h.1))

join-onto_first : (c : ℕ) (ps : List Text) → join (onto_first c ps) ≡ c ∷ join ps
unfolding join
join-onto_first c [] = refl
join-onto_first c (p ∷ ps) = refl

pub join-split : (x : ℕ) (s : Text) → Lacks x s → join (split x s) ≡ s
unfolding join split
join-split x [] h = refl
join-split x (c ∷ s) h = ground (arith, join-split x s h.1, join-onto_first c (split x s))

pub remove_char_absent : (x : ℕ) (s : Text) → Lacks x s → remove_char x s ≡ s
unfolding remove_char
remove_char_absent x [] h = refl
remove_char_absent x (c ∷ s) h = ground (arith, remove_char_absent x s h.1)

pub remove_char-append :
    (x : ℕ) (s t : Text) → remove_char x (s ++ t) ≡ remove_char x s ++ remove_char x t
unfolding remove_char
remove_char-append x [] t = refl
remove_char-append x (c ∷ s) t = ground (arith, remove_char-append x s t)

pub hexlify-append : (a b : Bytes) → hexlify (a ++ b) ≡ hexlify a ++ hexlify b
unfolding hexlify
hexlify-append [] b = refl
hexlify-append (x ∷ a) b = rw (hexlify-append a b)

pub upper-hexlify-Lacks_dash : (bs : Bytes) → IsBytes bs → Lacks b'-' (upper (hexlify bs))
unfolding hexlify hex_digit upper
upper-hexlify-Lacks_dash [] h = tt
upper-hexlify-Lacks_dash (b ∷ bs) h =
    (ground arith, (ground arith, upper-hexlify-Lacks_dash bs h.1))

-- Removing the dash behind a group of digits.
pub remove_dash_group :
    (bs : Bytes) (rest : Text)
    → IsBytes bs
    → remove_char b'-' (hexlify bs ++ (b'-' ∷ rest)) ≡ hexlify bs ++ remove_char b'-' rest
unfolding remove_char
remove_dash_group bs rest h = rw (
  remove_char-append b'-' (hexlify bs) (b'-' ∷ rest),
  remove_char_absent b'-' (hexlify bs) (hexlify-Lacks b'-' bs (omega arith) h),
  remove_char,
)

pub hexlify-take-drop :
    (n : ℕ) (bs : Bytes) → hexlify (take n bs) ++ hexlify (drop n bs) ≡ hexlify bs
hexlify-take-drop n bs =
    sym (hexlify-append (take n bs) (drop n bs)) ∙ ap hexlify (take-append-drop n bs)

hex_digit_zero : hex_digit 0 ≡ 48
unfolding hex_digit
hex_digit_zero = refl

-- A 16-bit number in exactly four digits.
pub zfill-format_x :
    (n : ℕ)
    → n < 65536
    → zfill 4 (format_x n)
      ≡ hex_digit (n / 4096)
        ∷ hex_digit (n / 256 % 16)
        ∷ hex_digit (n / 16 % 16)
        ∷ hex_digit (n % 16)
        ∷ []
unfolding zfill format_x
zfill-format_x n h = ground (arith, hex_digit_zero)

pad_zeros-upper : (k : ℕ) (s : Text) → pad_zeros k (upper s) ≡ upper (pad_zeros k s)
unfolding pad_zeros upper
pad_zeros-upper zero s = refl
pad_zeros-upper (suc k) s = ap (◌∷◌ b'0') (pad_zeros-upper k s)

length-upper : (s : Text) → length (upper s) ≡ length s
unfolding upper
length-upper [] = refl
length-upper (c ∷ s) = ap suc (length-upper s)

pub zfill-upper : (w : ℕ) (s : Text) → zfill w (upper s) ≡ upper (zfill w s)
unfolding zfill
zfill-upper w s = rw (length-upper s) (pad_zeros-upper (w - length s) s)
