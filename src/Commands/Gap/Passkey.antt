-- ===== src/Commands/Gap/Passkey.antt =====
-- Passkeys as texts: `var_store_get_passkey` writes them in base 10, and `gap_passkey_entry_rsp`
-- reads them in base 32.
use btptester_core.Prelude.{
  ℕ, zero, suc, ◌+◌, ◌*◌, ◌/◌, ◌%◌, ◌≡◌, ◌≢◌, ◌<◌, ◌≤◌, ◌∙◌, ◌↔◌, ap, refl, inl, inr, Bool-cases,
  some, List, [], ◌∷◌, ◌++◌, Text, arith, ltb, if◌then◌else◌,
}
use btptester_core.Result
use btptester_core.Result.{Result, ok}
use btptester_core.Gap.{Gap, get_passkey}
use btptester_core.Commands.Args.{digits}
use btptester_core.Commands.Gap.Info.{
  decimal, str, digit_32, value_32, passkey_int, var_store_get_passkey,
}

digit_32-digit : (d : ℕ) → d < 10 → digit_32 (b'0' + d) ≡ ok d
unfolding digit_32
digit_32-digit d h = ground arith

value_32-append :
    (acc n : ℕ) (s t : Text) → value_32 acc s ≡ ok n → value_32 acc (s ++ t) ≡ value_32 n t
unfolding value_32
value_32-append acc n [] t h = ground (arith, h)
value_32-append acc n (c ∷ s) t h =
    let (d, e, k) = Result.>>=-eq-ok (digit_32 c) (λ d. value_32 (acc * 32 + d) s) h in
    rw e (value_32-append (acc * 32 + d) n s t k)

-- what the decimal digits of n are in base 32
read_32 : ℕ → ℕ → ℕ
read_32 zero n = 0
read_32 (suc f) n = if ltb n 10 then n else read_32 f (n / 10) * 32 + n % 10

value_32-decimal : (f n : ℕ) → n < f → value_32 0 (decimal f n) ≡ ok (read_32 f n)
unfolding decimal read_32 value_32
value_32-decimal zero n h = absurd (omega arith)
value_32-decimal (suc f) n h = elim (Bool-cases (ltb n 10)) [
  | inl e ↦ rw e (rw (digit_32-digit n (ground (arith, e))) (ap ok (omega arith)))
  | inr e ↦ rw e (
      value_32-append 0 (read_32 f (n / 10)) (decimal f (n / 10)) ((b'0' + n % 10) ∷ [])
        (value_32-decimal f (n / 10) (ground (arith, e)))
      ∙ rw (digit_32-digit (n % 10) (omega arith)) refl)
]

read_32_least : (f n : ℕ) → n < f → n ≤ read_32 f n
unfolding read_32
read_32_least zero n h = absurd (omega arith)
read_32_least (suc f) n h = ground (arith, read_32_least f (n / 10))

read_32_more : (f n : ℕ) → n < f → 10 ≤ n → n < read_32 f n
unfolding read_32
read_32_more zero n h k = absurd (omega arith)
read_32_more (suc f) n h k = ground (arith, read_32_least f (n / 10))

read_32_same : (f n : ℕ) → n < f → n < 10 → read_32 f n ≡ n
unfolding read_32
read_32_same zero n h k = absurd (omega arith)
read_32_same (suc f) n h k = ground arith

-- the number that the device is sent
unfoldable pub entered : ℕ → ℕ
unfolding read_32
entered p = read_32 (suc p) p

-- A text that is not empty is read as its digits.
passkey_int-digits : (s : Text) → s ≢ [] → passkey_int (digits s) ≡ value_32 0 s
unfolding passkey_int
passkey_int-digits [] h = absurd (h refl)
passkey_int-digits (c ∷ s) h = refl

append-not_empty : (s : Text) (c : ℕ) → s ++ c ∷ [] ≢ []
append-not_empty [] c = ground arith
append-not_empty (d ∷ s) c = ground arith

decimal-not_empty : (f n : ℕ) → n < f → decimal f n ≢ []
unfolding decimal
decimal-not_empty zero n h = absurd (omega arith)
decimal-not_empty (suc f) n h =
    ground (arith, append-not_empty (decimal f (n / 10)) (b'0' + n % 10))

passkey_int-str : (p : ℕ) → passkey_int (digits (str p)) ≡ ok (read_32 (suc p) p)
unfolding str
passkey_int-str p =
    passkey_int-digits (decimal (suc p) p) (decimal-not_empty (suc p) p (omega arith))
    ∙ value_32-decimal (suc p) p (omega arith)

-- The text that `var_store_get_passkey` makes of a passkey p that is known is read by
-- `gap_passkey_entry_rsp` as p exactly if p has one decimal digit; every other passkey is read as a
-- larger number.
pub passkey_int-var_store_get_passkey :
    (now : Gap) (later : List Gap) (p : ℕ)
    → get_passkey now later ≡ some p
    → let read = passkey_int (digits (var_store_get_passkey now later)) in
      ((read ≡ ok p) ↔ (p < 10)) × (read ≡ ok (entered p)) × (p ≤ entered p)
unfolding var_store_get_passkey entered
passkey_int-var_store_get_passkey now later p h = ground (
  arith,
  h,
  passkey_int-str p,
  read_32_least (suc p) p,
  read_32_more (suc p) p,
  read_32_same (suc p) p,
)
