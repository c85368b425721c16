-- ===== src/Commands/Gap/Discover.antt =====
-- Discovery of pybtp/btp.py: starting and stopping it, and searching what was found.
use Prim.Native.Nat.{bit_or}
use package.text.Mathlib.Text.{◌==◌ as str_eq}
use btptester_core.Prelude.{
  ℕ, Bool, true, false, not, Option, none, some, List, [], ◌∷◌, Bytes, Text, String, text_eq,
  if◌then◌else◌,
}
use btptester_core.Result.{Result, ok, err}
use btptester_core.Defs.Gap
use btptester_core.Address.{BleAddress, ble_eq}
use btptester_core.Ad.{Record, parse_ad, ad_find_uuid16}
use btptester_core.Gap.{Gap, LeAdv, reset_discovery}
use btptester_core.Exec.{pure, ◌>>=◌, ◌>>◌}
use btptester_core.Worker.{Btp, send_from}
use btptester_core.Commands.Table.{text}
use btptester_core.Commands.Table.Gap.{gap}
use btptester_core.Commands.Response.{gap_command_rsp_succ}
use btptester_core.Commands.Gap.{the_gap, put_gap}

-- the flags by transport, type and mode
unfoldable pub discovery_flags : String → String → String → ℕ
discovery_flags transport type mode =
    let flags : ℕ =
      if str_eq transport "le"
      then bit_or 0 Gap.gap_discovery_flag_le
      else bit_or 0 Gap.gap_discovery_flag_bredr in
    let flags : ℕ =
      if str_eq type "active" then bit_or flags Gap.gap_discovery_flag_le_active_scan else flags in
    if str_eq mode "limited"
    then bit_or flags Gap.gap_discovery_flag_limited
    else if str_eq mode "observe"
    then bit_or flags Gap.gap_discovery_flag_le_observe
    else flags

unfoldable pub gap_start_discov : String → String → String → Btp (Unit {0})
unfolding discovery_flags
gap_start_discov transport type mode = do
  g ← the_gap
  put_gap (reset_discovery g)
  send_from gap "start_discov" (some (text (discovery_flags transport type mode ∷ [])))
  _ ← gap_command_rsp_succ (some Gap.gap_start_discovery)
  pure tt

unfoldable pub gap_stop_discov : Btp (Unit {0})
gap_stop_discov = do
  send_from gap "stop_discov" none
  _ ← gap_command_rsp_succ (some Gap.gap_stop_discovery)
  g ← the_gap
  put_gap (record g { discoverying = false })

-- `eir and eir != device.eir`: None and the empty byte string are not compared
abbrev pub other_eir : Option Bytes → Bytes → Bool
other_eir none eir = false
other_eir (some []) eir = false
other_eir (some (b ∷ bs)) eir = not (text_eq (b ∷ bs) eir)

-- the loop of `check_discov_results`
unfoldable pub is_found : BleAddress → Option Bytes → List LeAdv → Bool
is_found addr eir [] = false
is_found addr eir (device ∷ devices) =
    let rest = is_found addr eir devices in
    if not (ble_eq addr device.addr) then rest else if other_eir eir device.eir then rest else true

abbrev same : Bool → Bool → Bool
same true b = b
same false b = not b

unfoldable pub check_discov_results : Gap → BleAddress → Bool → Option Bytes → Bool
unfolding is_found
check_discov_results g addr discovered eir = same discovered (is_found addr eir g.found_devices)

abbrev is_in : Text → List Text → Bool
is_in uuid [] = false
is_in uuid (u ∷ us) = if text_eq uuid u then true else is_in uuid us

abbrev by_uuid :
    Text
    → LeAdv
    → Option (Result (List Record))
    → Option (Result (Option LeAdv))
    → Option (Result (Option LeAdv))
by_uuid uuid device none later = none
by_uuid uuid device (some (err e)) later = some (err e)
by_uuid uuid device (some (ok ad)) later = elim (ad_find_uuid16 ad) [
  | err e ↦ some (err e)
  | ok uuids ↦ if is_in uuid uuids then some (ok (some device)) else later
]

-- the loop of `check_discov_results_by_uuid`
unfoldable pub find_device : Text → List LeAdv → Option (Result (Option LeAdv))
find_device uuid [] = some (ok none)
find_device uuid (device ∷ devices) =
    by_uuid uuid device (parse_ad device.eir) (find_device uuid devices)

unfoldable pub check_discov_results_by_uuid : Gap → Text → Option (Result (Option LeAdv))
unfolding find_device
check_discov_results_by_uuid g uuid = find_device uuid g.found_devices
