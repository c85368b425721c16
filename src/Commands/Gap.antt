-- ===== src/Commands/Gap.antt =====
-- The GAP commands of pybtp/btp.py that have no payload of their own, and the settings in their
-- responses.
pub mod Connect
pub mod Advertise
pub mod Discover
pub mod Guards
pub mod Wire
pub mod Results
pub mod Info
pub mod Passkey
pub mod Named
use btptester_core.Prelude.{
  ℕ, Bool, true, false, not, Option, none, some, List, [], ◌∷◌, Bytes, String, length, ◌==◌,
  if◌then◌else◌,
}
use btptester_core.Result
use btptester_core.Result.{Result, ok, err, btp_error}
use btptester_core.Struct.{unpack, u32}
use btptester_core.Defs.Gap
use btptester_core.Gap.{Gap, current_settings_get, is_connected}
use btptester_core.Stack.{Stack}
use btptester_core.Exec.{pure, lift, of_option, modify, ◌>>=◌, ◌>>◌}
use btptester_core.Events.Gap.{gap_current_settings_update}
use btptester_core.Worker.{World, Btp, send_from}
use btptester_core.Commands.Table.Gap.{gap}
use btptester_core.Commands.Response.{gap_command_rsp_succ}

-- `iutctl.stack.gap`, where an attribute of it is used next
abbrev pub the_gap : Btp Gap
the_gap w = of_option w.stack.gap w

abbrev pub put_gap : Gap → Btp (Unit {0})
put_gap g = modify (λ w. record w { stack = record w.stack { gap = some g } })

-- `__gap_current_settings_update` on the payload of a response: four bytes
unfoldable pub settings_from : Bytes → Result ℕ
settings_from tuple_data = if length tuple_data == 4 then unpack u32 tuple_data else err btp_error

unfoldable pub update_from_rsp : Bytes → Btp (Unit {0})
unfolding settings_from
update_from_rsp tuple_data = do
  settings ← lift (settings_from tuple_data)
  g ← the_gap
  put_gap (gap_current_settings_update g settings)

-- The three statements in which the settings commands below end: a command of the table, its
-- response, and the settings that the response reports.
unfoldable pub settings_command : String → ℕ → Btp (Unit {0})
unfolding send_from gap_command_rsp_succ update_from_rsp
settings_command key op = do
  send_from gap key none
  tuple_data ← gap_command_rsp_succ (some op)
  update_from_rsp tuple_data

unfoldable pub gap_adv_off : Btp (Unit {0})
gap_adv_off = do
  g ← the_gap
  if current_settings_get g "Advertising"
      then settings_command "stop_adv" Gap.gap_stop_advertising
      else pure tt

unfoldable pub gap_set_conn : Btp (Unit {0})
gap_set_conn = do
  g ← the_gap
  if current_settings_get g "Connectable"
      then pure tt
      else settings_command "set_conn" Gap.gap_set_connectable

unfoldable pub gap_set_nonconn : Btp (Unit {0})
gap_set_nonconn = do
  g ← the_gap
  if current_settings_get g "Connectable"
      then settings_command "set_nonconn" Gap.gap_set_connectable
      else pure tt

unfoldable pub gap_set_nondiscov : Btp (Unit {0})
gap_set_nondiscov = do
  g ← the_gap
  if current_settings_get g "Discoverable"
      then settings_command "set_nondiscov" Gap.gap_set_discoverable
      else pure tt

unfoldable pub gap_set_gendiscov : Btp (Unit {0})
gap_set_gendiscov = settings_command "set_gendiscov" Gap.gap_set_discoverable

unfoldable pub gap_set_limdiscov : Btp (Unit {0})
gap_set_limdiscov = settings_command "set_limdiscov" Gap.gap_set_discoverable

unfoldable pub gap_set_powered_on : Btp (Unit {0})
gap_set_powered_on = settings_command "set_powered_on" Gap.gap_set_powered

unfoldable pub gap_set_powered_off : Btp (Unit {0})
gap_set_powered_off = settings_command "set_powered_off" Gap.gap_set_powered

unfoldable pub gap_reset : Btp (Unit {0})
gap_reset = do send_from gap "reset" none; _ ← gap_command_rsp_succ (some Gap.gap_reset); pure tt

-- `gap_wait_for_connection`: what other threads do to the stack while it waits is not part of it,
-- and its result is not used.
unfoldable pub gap_wait_for_connection : Btp (Unit {0})
gap_wait_for_connection = do _ ← the_gap; pure tt
