-- ===== src/Commands/Gap/Info.antt =====
-- The controller's information, passkeys and names in the GAP commands of pybtp/btp.py.
use btptester_core.Prelude.{
  ℕ, zero, suc, ◌+◌, ◌-◌, ◌*◌, ◌/◌, ◌%◌, ◌||◌, ◌&&◌, Bool, not, Option, none, some, List, [], ◌∷◌,
  ◌++◌, Bytes, Text, text_eq, length, reverse, ltb, leb, ◌==◌, if◌then◌else◌,
}
use btptester_core.Result
use btptester_core.Result.{Result, ok, err, btp_error, value_error, type_error}
use btptester_core.Struct
use btptester_core.Struct.{Reader, u32, raw, unpack_from, pack_u32}
use btptester_core.Hex.{hexlify, lower}
use btptester_core.Text8.{decode}
use btptester_core.Ad.{Record, parse_ad}
use btptester_core.Defs.Gap as Ops
use btptester_core.Types.{test_bit}
use btptester_core.Address.{BleAddress, ble_address, ble_bytes}
use btptester_core.Gap.{Gap, LeAdv, get_passkey, is_connected, iut_addr_set}
use btptester_core.Exec.{pure, lift, ◌>>=◌, ◌>>◌}
use btptester_core.Events.Gap.{gap_current_settings_update}
use btptester_core.Worker.{Btp, send_from}
use btptester_core.Commands.Table.Gap.{gap}
use btptester_core.Commands.Response.{gap_command_rsp_succ}
use btptester_core.Commands.Args.{Number, int, digits}
use btptester_core.Commands.Gap.{the_gap, put_gap, gap_wait_for_connection}
use btptester_core.Commands.Gap.Connect.{address_command}

-- '<6sII3s249s11s'
unfoldable pub ctrl_info : Reader (Bytes × ℕ × ℕ × Bytes × Bytes × Bytes)
unfolding raw
ctrl_info = Struct.◌>>=◌ (raw 6) λ a. Struct.◌>>=◌ u32 λ s. Struct.◌>>=◌ u32 λ c.
    Struct.◌>>=◌ (raw 3)
      λ d. Struct.◌>>=◌ (raw 249) λ n. Struct.◌>>=◌ (raw 11) λ m. Struct.pure (a, s, c, d, n, m)

-- s.rstrip('\0')
abbrev onto_stripped : ℕ → Text → Text
onto_stripped zero [] = []
onto_stripped c s = c ∷ s

unfoldable pub rstrip_zeros : Text → Text
rstrip_zeros [] = []
rstrip_zeros (c ∷ s) = onto_stripped c (rstrip_zeros s)

-- Addr.le_random and Addr.le_public, by two of the current settings
unfoldable pub own_addr_type : ℕ → ℕ
own_addr_type curr_set =
    if test_bit curr_set Ops.gap_settings_privacy
      || test_bit curr_set Ops.gap_settings_static_address
    then 1
    else 0

unfoldable pub check_ctrl_info_len : Bytes → Result (Unit {0})
check_ctrl_info_len dat = if ltb (length dat) 277 then Result.err btp_error else Result.ok tt

unfoldable pub gap_read_ctrl_info : Btp (Unit {0})
unfolding check_ctrl_info_len ctrl_info rstrip_zeros own_addr_type
gap_read_ctrl_info = do
  send_from gap "read_ctrl_info" none
  tuple_data ← gap_command_rsp_succ (some Ops.gap_read_controller_info)
  lift (check_ctrl_info_len tuple_data)
  (addr, supp_set, curr_set, cod, name, name_sh) ← lift (unpack_from ctrl_info tuple_data)
  n ← lift (decode name)
  m ← lift (decode name_sh)
  g ← the_gap
  let a = ble_address (lower (hexlify (reverse addr))) (own_addr_type curr_set)
  let h =
      iut_addr_set (record g { name = some (rstrip_zeros n); name_short = some (rstrip_zeros m) }) a
  put_gap (gap_current_settings_update h curr_set)

-- True exactly if nobody is connected after the wait
unfoldable pub verify_not_connected : Btp Bool
unfolding gap_wait_for_connection is_connected
verify_not_connected = do gap_wait_for_connection; g ← the_gap; pure (not (is_connected g none))

-- str(n): the fuel bounds the number of digits
unfoldable pub decimal : ℕ → ℕ → Text
decimal zero n = []
decimal (suc f) n =
    let more = decimal f (n / 10) in
    if ltb n 10 then (b'0' + n) ∷ [] else more ++ (b'0' + n % 10) ∷ []

unfoldable pub str : ℕ → Text
unfolding decimal
str n = decimal (suc n) n

-- str(None) is 'None'
unfoldable pub var_store_get_passkey : Gap → List Gap → Text
unfolding str get_passkey
var_store_get_passkey now later = elim (get_passkey now later) [
  | none ↦ b'N' ∷ b'o' ∷ b'n' ∷ b'e' ∷ []
  | some p ↦ str p
]

-- `None > 0` is a TypeError
unfoldable pub var_store_get_wrong_passkey : Gap → List Gap → Result Text
unfolding str get_passkey
var_store_get_wrong_passkey now later = elim (get_passkey now later) [
  | none ↦ Result.err type_error
  | some p ↦ if ltb 0 p then Result.ok (str (p - 1)) else Result.ok (str (p + 1))
]

-- a digit of base 32
unfoldable pub digit_32 : ℕ → Result ℕ
digit_32 c =
    if leb b'0' c && leb c b'9'
    then Result.ok (c - 48)
    else if leb b'a' c && leb c b'v'
    then Result.ok (c - 87)
    else if leb b'A' c && leb c b'V'
    then Result.ok (c - 55)
    else Result.err value_error

unfoldable pub value_32 : ℕ → Text → Result ℕ
unfolding digit_32
value_32 acc [] = Result.ok acc
value_32 acc (c ∷ s) = Result.◌>>=◌ (digit_32 c) λ d. value_32 (acc * 32 + d) s

-- `if isinstance(passkey, str): passkey = int(passkey, 32)`, for a text without blanks, sign and
-- underscores
unfoldable pub passkey_int : Number → Result ℕ
unfolding value_32
passkey_int (int n) = Result.ok n
passkey_int (digits []) = Result.err value_error
passkey_int (digits (c ∷ s)) = value_32 0 (c ∷ s)

unfoldable pub gap_passkey_entry_rsp : BleAddress → Number → Btp (Unit {0})
unfolding address_command passkey_int
gap_passkey_entry_rsp bd_addr passkey = do
  data_ba ← lift (ble_bytes bd_addr)
  p ← lift (passkey_int passkey)
  passkey_ba ← lift (pack_u32 p)
  address_command "passkey_entry_rsp" Ops.gap_passkey_entry (data_ba ++ passkey_ba)

-- AdType.name_short and AdType.name_full
abbrev pub name_short : ℕ
name_short = 0x08

abbrev pub name_full : ℕ
name_full = 0x09

-- the two names found so far, and one more record
unfoldable pub one_name : Text → Text → Record → Result (Text × Text)
unfolding decode
one_name name short (t, dat) =
    if t == name_full
    then (Result.◌>>=◌ (decode dat) λ n. Result.ok (n, short))
    else if t == name_short
    then (Result.◌>>=◌ (decode dat) λ s. Result.ok (name, s))
    else Result.ok (name, short)

-- the loop of `ad_find_name`
unfoldable pub names_from : Text → Text → List Record → Result (Text × Text)
unfolding one_name
names_from name short [] = Result.ok (name, short)
names_from name short (r ∷ ad) = Result.◌>>=◌ (one_name name short r) λ p. names_from p.0 p.1 ad

unfoldable pub ad_find_name : List Record → Result (Text × Text)
unfolding names_from
ad_find_name ad = names_from [] [] ad

abbrev by_name :
    Text
    → Text
    → LeAdv
    → Option (Result (List Record))
    → Option (Result (Option LeAdv))
    → Option (Result (Option LeAdv))
by_name name_long name_sh device none later = none
by_name name_long name_sh device (some (err e)) later = some (err e)
by_name name_long name_sh device (some (ok ad)) later = elim (ad_find_name ad) [
  | err e ↦ some (err e)
  | ok (long, short) ↦
      if text_eq name_long long && text_eq name_sh short then some (ok (some device)) else later
]

-- the loop of `check_discov_results_by_name`; `none` if the fuel of `parse_ad` runs out
unfoldable pub find_named : Text → Text → List LeAdv → Option (Result (Option LeAdv))
find_named name_long name_sh [] = some (ok none)
find_named name_long name_sh (device ∷ devices) =
    by_name name_long name_sh device (parse_ad device.eir) (find_named name_long name_sh devices)

unfoldable pub check_discov_results_by_name : Gap → Text → Text → Option (Result (Option LeAdv))
unfolding find_named
check_discov_results_by_name g name_long name_sh = find_named name_long name_sh g.found_devices
