-- ===== src/Prelude.antt =====
-- The names that the other modules share: the libraries' own, passed on, the tests and list
-- lemmas over native numbers, and byte strings.
mod Tests
mod Lists
pub use Tests.*
pub use Lists.*
pub use Prim.Native.Nat.{ℕ, zero, suc, ◌+◌, ◌-◌, ◌*◌, ◌/◌, ◌%◌, ◌^◌, ◌≤◌, ◌<◌}
pub use Prim.Native.String.{String}
pub use mathlib.Core.Path.{◌≡◌, refl, sym, ap, subst, ◌∙◌, fun_ext}
pub use mathlib.Core.Logic.{◌≢◌, ◌↔◌, ◌⊎◌, inl, inr}
pub use mathlib.Core.Bool.{Bool, true, false, not, ◌&&◌, ◌||◌}
pub use mathlib.Core.Option.{Option, none, some}
pub use mathlib.Core.List.{List, [], ◌∷◌, ◌++◌, map, reverse}
pub use mathlib.Core.List.{append-nil, append_assoc, reverse-cons, reverse-append, reverse-reverse}
pub use native.Mathlib.Omega.{arith}

-- `bytes` and `bytearray`: every element is below 256, which `IsBytes` states where it matters.
abbrev pub Bytes : Type 0
Bytes = List ℕ

abbrev pub IsBytes : Bytes → Type 0
IsBytes = All (λ b. b < 256)

-- Text as its code points; ASCII wherever the program builds it.
abbrev pub Text : Type 0
Text = List ℕ

-- `==` of two byte strings or texts.
unfoldable pub text_eq : List ℕ → List ℕ → Bool
text_eq [] [] = true
text_eq (a ∷ x) (b ∷ y) = (a == b) && text_eq x y
text_eq _ _ = false

pub text_eq→eq : (x y : List ℕ) → text_eq x y ≡ true → x ≡ y
unfolding text_eq
text_eq→eq [] [] h = refl
text_eq→eq [] (b ∷ y) h = cc
text_eq→eq (a ∷ x) [] h = cc
text_eq→eq (a ∷ x) (b ∷ y) h = ground (arith, text_eq→eq x y)

pub text_eq_refl : (x : List ℕ) → text_eq x x ≡ true
unfolding text_eq
text_eq_refl [] = refl
text_eq_refl (a ∷ x) = ground (arith, text_eq_refl x)

pub text_eq_iff : (x y : List ℕ) → (text_eq x y ≡ true) ↔ (x ≡ y)
text_eq_iff x y = (text_eq→eq x y, λ e. rw e (text_eq_refl y))
