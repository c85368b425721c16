-- ===== src/Commands/Args.antt =====
-- What the GATT, L2CAP and Mesh commands of pybtp/btp.py make of their arguments.
use btptester_core.Prelude.{
  ℕ, zero, suc, ◌+◌, ◌*◌, ◌||◌, ◌&&◌, Option, none, some, [], ◌∷◌, ◌++◌, Bytes, Text, ◌==◌,
  if◌then◌else◌,
}
use btptester_core.Result.{Result, ok, err, value_error, type_error, attribute_error, ◌>>=◌}
use btptester_core.Struct.{pack_u16}
use btptester_core.Hex.{digit_value, unhexlify}
use btptester_core.GattDb.Handles.{Handle, num, hex}

-- the digits of `s` behind those that are read
unfoldable pub hex_value : ℕ → Text → Result ℕ
unfolding digit_value
hex_value acc [] = ok acc
hex_value acc (c ∷ s) = do d ← digit_value c; hex_value (acc * 16 + d) s

-- without a prefix 0x
abbrev pub without_0x : Text → Text
without_0x (a ∷ b ∷ s) =
    if a == b'0' then (if (b == b'x') || (b == b'X') then s else a ∷ b ∷ s) else a ∷ b ∷ s
without_0x s = s

abbrev some_digits : Text → Result ℕ
some_digits [] = err value_error
some_digits (c ∷ s) = hex_value 0 (c ∷ s)

-- int(s, 16) for a text without blanks, sign and underscores
unfoldable pub int_16 : Text → Result ℕ
unfolding hex_value
int_16 s = some_digits (without_0x s)

-- `if type(hdl) is str: hdl = int(hdl, 16)`
unfoldable pub hdl_int : Handle → Result ℕ
unfolding int_16
hdl_int (num n) = ok n
hdl_int (hex s) = int_16 s

-- the handle as a number, then struct.pack('H', hdl)
unfoldable pub hdl_ba : Handle → Result Bytes
unfolding hdl_int
hdl_ba hdl = do n ← hdl_int hdl; pack_u16 n

-- A value given as a text of digits, or as the bytes of such a text.
pub data Val : Type 0 where
  str_val bytes_val : Text → Val

abbrev times : ℕ → Text → Text
times zero s = []
times (suc n) s = s ++ times n s

-- `if val_mtp: val *= int(val_mtp)`; None and 0 leave the value alone
abbrev multiplied : Option ℕ → Text → Text
multiplied none s = s
multiplied (some zero) s = s
multiplied (some (suc n)) s = times (suc n) s

unfoldable pub multiply : Option ℕ → Val → Val
multiply mtp (str_val s) = str_val (multiplied mtp s)
multiply mtp (bytes_val s) = bytes_val (multiplied mtp s)

-- binascii.unhexlify(bytearray(val)): a text has no bytes without an encoding, a TypeError
unfoldable pub val_ba : Val → Result Bytes
unfolding unhexlify
val_ba (str_val s) = err type_error
val_ba (bytes_val s) = unhexlify s

-- binascii.unhexlify(bytearray(val.encode())): bytes have no `encode`
unfoldable pub encoded_val_ba : Val → Result Bytes
unfolding unhexlify
encoded_val_ba (str_val s) = unhexlify s
encoded_val_ba (bytes_val s) = err attribute_error

-- binascii.unhexlify of either
unfoldable pub any_val_ba : Val → Result Bytes
unfolding unhexlify
any_val_ba (str_val s) = unhexlify s
any_val_ba (bytes_val s) = unhexlify s

-- s.replace("0x", "")
unfoldable pub remove_0x : Text → Text
remove_0x [] = []
remove_0x (a ∷ []) = a ∷ []
remove_0x (a ∷ b ∷ s) =
    let rest = a ∷ remove_0x (b ∷ s) in
    let behind = remove_0x s in if (a == b'0') && (b == b'x') then behind else rest

-- `if uuid.startswith("0x"): uuid = uuid.replace("0x", "")`
unfoldable pub strip_0x : Text → Text
unfolding remove_0x
strip_0x (a ∷ b ∷ s) = if (a == b'0') && (b == b'x') then remove_0x (a ∷ b ∷ s) else a ∷ b ∷ s
strip_0x s = s

-- A number, or a text of its digits in the base that the command reads.
pub data Number : Type 0 where
  int : ℕ → Number
  digits : Text → Number
