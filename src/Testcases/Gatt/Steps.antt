-- ===== src/Testcases/Gatt/Steps.antt =====
-- testcases/GattTestCase.py: the steps that read and write values, and those that ask for
-- notifications.
use package.text.Mathlib.Text.{◌==◌ as str_eq}
use btptester_core.Prelude.{ℕ, Bool, false, Option, none, some, List, [], ◌∷◌, Text, text_eq}
use btptester_core.Result.{Result, ok, err, index_error, type_error}
use btptester_core.Address.{BleAddress}
use btptester_core.GattDb.Handles.{Handle}
use btptester_core.GattCl.{Verify, str, digits}
use btptester_core.Gatt.{GattValue, new_value}
use btptester_core.Waiting
use btptester_core.Waiting.{Look}
use btptester_core.Exec.{pure, lift, ◌>>=◌, ◌>>◌}
use btptester_core.Worker.{Btp}
use btptester_core.Events.Args.{EvArgs, notification}
use btptester_core.Events.Waits.{gattc_notification_ev, gatts_attr_value_changed_ev}
use btptester_core.Commands.Args.{Val}
use btptester_core.Commands.Gattc.{gattc_cfg_notify, gattc_cfg_indicate}
use btptester_core.Commands.Gattc.Values.{
  gattc_read, gattc_read_long, gattc_write, gattc_write_long,
}
use btptester_core.Commands.Gattc.Responses.{
  gattc_read_rsp, gattc_read_long_rsp, gattc_write_rsp, gattc_write_long_rsp,
}
use btptester_core.Commands.GattCl.{gatt_cl_cfg_notify, gatt_cl_cfg_indicate}
use btptester_core.Commands.GattCl.Values.{
  gatt_cl_read, gatt_cl_read_long, gatt_cl_write, gatt_cl_write_long,
}
use btptester_core.Testcases.Bench.{
  Side, iut1, iut2, Test, Future, on, iut_addr_get, listen, wait_futures, result, check,
}
use btptester_core.Testcases.Gatt.{choose, the_client, await}

-- stack.gatt_cl.verify_values[0]
abbrev first_value : List Verify → Result (Option Verify)
first_value [] = err index_error
first_value (v ∷ vs) = ok (some v)

abbrev client_value : Test (Option Verify)
client_value = do cl ← the_client; lift (first_value cl.verify_values)

-- val.att_rsp of the GattValue that the response was read into
abbrev att_rsp_of : Option GattValue → Option Verify
att_rsp_of none = none
att_rsp_of (some v) = elim v.att_rsp [ none ↦ none | some s ↦ some (str s) ]

abbrev status : Btp (Option GattValue) → Btp (Option Verify)
status rsp = do v ← rsp; pure (att_rsp_of v)

unfoldable pub read : Side → Side → Handle → Test (Option Verify)
read a b hdl =
    choose
      (do
        addr ← iut_addr_get b
        on a (gatt_cl_read addr hdl)
        await Waiting.wait_for_read
        client_value)
      (do
        addr ← iut_addr_get b
        on a (gattc_read addr hdl)
        on iut1 (status (gattc_read_rsp (some new_value))))

unfoldable pub read_long : Side → Side → Handle → Handle → Option ℕ → Test (Option Verify)
read_long a b hdl off modif_off =
    choose
      (do
        addr ← iut_addr_get b
        on a (gatt_cl_read_long addr hdl off modif_off)
        await Waiting.wait_for_read
        client_value)
      (do
        addr ← iut_addr_get b
        on a (gattc_read_long addr hdl off modif_off)
        on iut1 (status (gattc_read_long_rsp (some new_value))))

abbrev value_changed_future : Test Future
value_changed_future = listen iut2 gatts_attr_value_changed_ev none

unfoldable pub write : Side → Side → Handle → Val → Test (Option Verify × Future)
write a b hdl val =
    choose
      (do
        addr ← iut_addr_get b
        on a (gatt_cl_write addr hdl val none)
        future_iut2 ← value_changed_future
        await Waiting.wait_for_write_rsp
        v ← client_value
        pure (v, future_iut2))
      (do
        addr ← iut_addr_get b
        on a (gattc_write addr hdl val none)
        future_iut2 ← value_changed_future
        v ← on iut1 (status (gattc_write_rsp (some new_value)))
        pure (v, future_iut2))

unfoldable pub write_long : Side → Side → Handle → Handle → Val → Test (Option Verify × Future)
write_long a b hdl off val =
    choose
      (do
        addr ← iut_addr_get b
        on a (gatt_cl_write_long addr hdl off val none)
        future_iut2 ← value_changed_future
        await Waiting.wait_for_write_rsp
        v ← client_value
        pure (v, future_iut2))
      (do
        addr ← iut_addr_get b
        on a (gattc_write_long addr hdl off val none)
        future_iut2 ← value_changed_future
        v ← on iut1 (status (gattc_write_long_rsp (some new_value)))
        pure (v, future_iut2))

-- assertEqual(rsp, "No error")
abbrev no_error_codes : Text
no_error_codes = b'N' ∷ b'o' ∷ b' ' ∷ b'e' ∷ b'r' ∷ b'r' ∷ b'o' ∷ b'r' ∷ []

unfoldable pub is_no_error : Option Verify → Bool
is_no_error none = false
is_no_error (some (str s)) = str_eq s "No error"
is_no_error (some (digits t)) = text_eq t no_error_codes

unfoldable pub assert_no_error : Option Verify → Test (Unit {0})
unfolding is_no_error
assert_no_error rsp = lift (check (is_no_error rsp))

abbrev pub Notification : Type 0
Notification = BleAddress × ℕ × ℕ × Text

abbrev first_notification : List Notification → Result Notification
first_notification [] = err index_error
first_notification (n ∷ ns) = ok n

-- the arguments of a notification event
abbrev notification_of : Option EvArgs → Result Notification
notification_of (some (notification a t h v)) = ok (a, t, h, v)
notification_of _ = err type_error

-- `cfg_notify` and `cfg_indicate` differ in the command
unfoldable pub configure :
    (BleAddress → ℕ → Handle → Btp (Unit {0}))
    → (BleAddress → ℕ → Handle → Btp (Unit {0}))
    → Side
    → Side
    → ℕ
    → Handle
    → Test Notification
unfolding assert_no_error
configure client older a b enable hdl =
    choose
      (do
        addr ← iut_addr_get b
        on a (client addr enable hdl)
        await Waiting.wait_for_write_rsp
        v ← client_value
        assert_no_error v
        await (λ now later. Waiting.wait_for_notifications now later 1)
        cl ← the_client
        lift (first_notification cl.notifications))
      (do
        future_iut1 ← listen iut1 gattc_notification_ev none
        addr ← iut_addr_get b
        on a (older addr enable hdl)
        v ← on iut1 (status (gattc_write_rsp (some new_value)))
        assert_no_error v
        wait_futures (future_iut1 ∷ [])
        args ← result future_iut1
        lift (notification_of args))

unfoldable pub cfg_notify : Side → Side → ℕ → Handle → Test Notification
unfolding configure
cfg_notify = configure gatt_cl_cfg_notify gattc_cfg_notify

unfoldable pub cfg_indicate : Side → Side → ℕ → Handle → Test Notification
unfolding configure
cfg_indicate = configure gatt_cl_cfg_indicate gattc_cfg_indicate
