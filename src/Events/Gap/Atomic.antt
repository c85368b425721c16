-- ===== src/Events/Gap/Atomic.antt =====
-- A GAP event handler that raises has changed nothing.
use btptester_core.Prelude.{◌≡◌, Bytes, arith}
use btptester_core.Result.{Exc, err}
use btptester_core.Stack.{Stack}
use btptester_core.Events.Args.{Handler}
use btptester_core.Events.Gap.{
  gap_new_settings_ev_, gap_device_found_ev_, gap_connected_ev_, gap_disconnected_ev_,
  gap_passkey_entry_req_ev_, gap_passkey_disp_ev_, gap_passkey_confirm_req_ev_,
  gap_identity_resolved_ev_, gap_conn_param_update_ev_, gap_sec_level_changed_ev_,
  gap_pairing_consent_ev_,
}

-- On every stack, if the handler raises, the stack is as before.
abbrev pub IsAtomic : (Bytes → Handler) → Type 0
IsAtomic h = (dat : Bytes) (s : Stack) (e : Exc) → (h dat s).0 ≡ err e → (h dat s).1 ≡ s

pub new_settings-IsAtomic : IsAtomic gap_new_settings_ev_
unfolding gap_new_settings_ev_
new_settings-IsAtomic dat s e h = ground arith

pub device_found-IsAtomic : IsAtomic gap_device_found_ev_
unfolding gap_device_found_ev_
device_found-IsAtomic dat s e h = ground arith

pub connected-IsAtomic : IsAtomic gap_connected_ev_
unfolding gap_connected_ev_
connected-IsAtomic dat s e h = ground arith

pub disconnected-IsAtomic : IsAtomic gap_disconnected_ev_
unfolding gap_disconnected_ev_
disconnected-IsAtomic dat s e h = ground arith

pub passkey_entry_req-IsAtomic : IsAtomic gap_passkey_entry_req_ev_
unfolding gap_passkey_entry_req_ev_
passkey_entry_req-IsAtomic dat s e h = ground arith

pub passkey_disp-IsAtomic : IsAtomic gap_passkey_disp_ev_
unfolding gap_passkey_disp_ev_
passkey_disp-IsAtomic dat s e h = ground arith

pub passkey_confirm_req-IsAtomic : IsAtomic gap_passkey_confirm_req_ev_
unfolding gap_passkey_confirm_req_ev_
passkey_confirm_req-IsAtomic dat s e h = ground arith

pub identity_resolved-IsAtomic : IsAtomic gap_identity_resolved_ev_
unfolding gap_identity_resolved_ev_
identity_resolved-IsAtomic dat s e h = ground arith

pub conn_param_update-IsAtomic : IsAtomic gap_conn_param_update_ev_
unfolding gap_conn_param_update_ev_
conn_param_update-IsAtomic dat s e h = ground arith

pub sec_level_changed-IsAtomic : IsAtomic gap_sec_level_changed_ev_
unfolding gap_sec_level_changed_ev_
sec_level_changed-IsAtomic dat s e h = ground arith

pub pairing_consent-IsAtomic : IsAtomic gap_pairing_consent_ev_
unfolding gap_pairing_consent_ev_
pairing_consent-IsAtomic dat s e h = ground arith
