-- ===== src/Events/Waits.antt =====
-- The waits for single events in pybtp/btp.py: each puts one listener on the list of its event.
-- `waiter` is the thread that is released, `verify_f` the test of the caller.
use btptester_core.Prelude.{ℕ, Bool, Option}
use btptester_core.Defs.Core.{btp_service_id_gap, btp_service_id_gatt}
use btptester_core.Defs.Gap
use btptester_core.Defs.Gatt
use btptester_core.Result.{Result}
use btptester_core.Events.Args.{EvArgs}
use btptester_core.Events.Handler.Listeners.{BtpEventHandler, wait_for_event}

module _ (waiter : ℕ) (verify_f : Option (EvArgs → Result Bool)) (h : BtpEventHandler) where
  abbrev wait_gap : ℕ → BtpEventHandler
  wait_gap op = wait_for_event waiter verify_f btp_service_id_gap op h

  abbrev wait_gatt : ℕ → BtpEventHandler
  wait_gatt op = wait_for_event waiter verify_f btp_service_id_gatt op h

  unfoldable pub gap_device_found_ev : BtpEventHandler
  gap_device_found_ev = wait_gap Gap.gap_ev_device_found

  unfoldable pub gap_connected_ev : BtpEventHandler
  gap_connected_ev = wait_gap Gap.gap_ev_device_connected

  unfoldable pub gap_disconnected_ev : BtpEventHandler
  gap_disconnected_ev = wait_gap Gap.gap_ev_device_disconnected

  unfoldable pub gap_passkey_entry_req_ev : BtpEventHandler
  gap_passkey_entry_req_ev = wait_gap Gap.gap_ev_passkey_entry_req

  unfoldable pub gap_passkey_disp_ev : BtpEventHandler
  gap_passkey_disp_ev = wait_gap Gap.gap_ev_passkey_display

  unfoldable pub gap_passkey_confirm_req_ev : BtpEventHandler
  gap_passkey_confirm_req_ev = wait_gap Gap.gap_ev_passkey_confirm_req

  unfoldable pub gap_conn_param_update_ev : BtpEventHandler
  gap_conn_param_update_ev = wait_gap Gap.gap_ev_conn_param_update

  unfoldable pub gap_sec_level_changed_ev : BtpEventHandler
  gap_sec_level_changed_ev = wait_gap Gap.gap_ev_sec_level_changed

  unfoldable pub gattc_notification_ev : BtpEventHandler
  gattc_notification_ev = wait_gatt Gatt.gatt_ev_notification

  unfoldable pub gatts_attr_value_changed_ev : BtpEventHandler
  gatts_attr_value_changed_ev = wait_gatt Gatt.gatt_ev_attr_value_changed
