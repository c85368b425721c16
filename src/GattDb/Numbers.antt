-- ===== src/GattDb/Numbers.antt =====
-- Handles between numbers and texts.
use btptester_core.Prelude.{ℕ, ◌≡◌, ◌<◌, ◌/◌, ◌%◌, ◌∙◌, ap, [], ◌∷◌, arith}
use btptester_core.Hex.{
  hex_digit, digit_value, upper_char, upper, format_x, value_or_zero, int_hex, int_hex_from,
}
use btptester_core.Hex.Laws.{zfill-format_x, zfill-upper}
use btptester_core.GattDb.Handles.{hdl_hex}

unfoldable pub digit : ℕ → ℕ
digit d = upper_char (hex_digit d)

value-digit : (d : ℕ) → d < 16 → value_or_zero (digit_value (digit d)) ≡ d
unfolding digit digit_value upper_char hex_digit
value-digit d h = ground arith

pub hdl_hex-digits :
    (h : ℕ)
    → h < 65536
    → hdl_hex h
      ≡ digit (h / 4096) ∷ digit (h / 256 % 16) ∷ digit (h / 16 % 16) ∷ digit (h % 16) ∷ []
unfolding hdl_hex digit upper
hdl_hex-digits h l = zfill-upper 4 (format_x h) ∙ ap upper (zfill-format_x h l)

-- A 16-bit handle written by "%04X" and read by int(…, 16) is the same handle.
pub int_hex-hdl_hex : (h : ℕ) → h < 65536 → int_hex (hdl_hex h) ≡ h
unfolding int_hex int_hex_from
int_hex-hdl_hex h l = rw (hdl_hex-digits h l) (
    ground (
      arith,
      value-digit (h / 4096),
      value-digit (h / 256 % 16),
      value-digit (h / 16 % 16),
      value-digit (h % 16),
    ))
