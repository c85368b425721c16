-- ===== src/GattDb/Handles.antt =====
-- Attribute handles as the code uses them: numbers, or texts of upper-case digits.
use btptester_core.Prelude.{
  ℕ, ◌≡◌, ◌↔◌, Bool, true, false, [], ◌∷◌, Text, arith, leb, ltb, ◌==◌, ==_iff, text_eq,
  text_eq_iff, if◌then◌else◌,
}
use btptester_core.Hex.{format_x, upper, zfill}
use btptester_core.Dict.{Eq}

pub data Handle : Type 0 where
  num : ℕ → Handle
  hex : Text → Handle

-- the order of two texts
unfoldable pub text_le : Text → Text → Bool
text_le [] t = true
text_le (a ∷ s) [] = false
text_le (a ∷ s) (b ∷ t) = if ltb a b then true else if a == b then text_le s t else false

-- the order of two handles of one form
unfoldable pub handle_le : Handle → Handle → Bool
unfolding text_le
handle_le (num a) (num b) = leb a b
handle_le (hex s) (hex t) = text_le s t
handle_le _ _ = false

unfoldable pub handle_eq : Handle → Handle → Bool
handle_eq (num a) (num b) = a == b
handle_eq (hex s) (hex t) = text_eq s t
handle_eq _ _ = false

pub handle_eq_iff : (a b : Handle) → (handle_eq a b ≡ true) ↔ (a ≡ b)
unfolding handle_eq
handle_eq_iff (num a) (num b) = ground (arith, ==_iff a b)
handle_eq_iff (num a) (hex t) = ground arith
handle_eq_iff (hex s) (num b) = ground arith
handle_eq_iff (hex s) (hex t) = ground (arith, text_eq_iff s t)

instance abbrev pub handle_eq_inst : Eq Handle
handle_eq_inst = record { beq = handle_eq; beq_iff = handle_eq_iff }

-- "%04X" % hdl
unfoldable pub hdl_hex : ℕ → Text
hdl_hex hdl = zfill 4 (upper (format_x hdl))
