-- ===== src/Events/Gap.antt =====
-- The GAP event handlers of pybtp/btp.py.
pub mod Atomic
pub mod Found
pub mod Settings
pub mod Links
use btptester_core.Prelude.{
  ℕ, zero, suc, Bool, not, Option, none, some, List, [], ◌∷◌, ◌++◌, String, Bytes, drop, length,
  ◌==◌, leb, if◌then◌else◌,
}
use btptester_core.Result.{Result, ok, err, btp_error}
use btptester_core.Struct.{unpack, unpack_from, u32}
use btptester_core.Struct.Formats.{b_6s, b_6s_b, b_6s_i, b_6s_b_6s, b_6s_b_b_h, b_6s_h_h_h}
use btptester_core.Address.{BleAddress, ble_from_wire}
use btptester_core.Types.{gap_settings_btp2txt, test_bit}
use btptester_core.Gap.{
  Gap, LeAdv, ConnParams, connected, disconnected, set_conn_params, current_settings_set,
  current_settings_clear, identity_resolved,
}
use btptester_core.Stack.{Stack, pairing_consent_cb}
use btptester_core.Exec.{Exec, pure, raise, lift, gets, of_option, modify, ◌>>=◌, ◌>>◌}
use btptester_core.Events.Args.{
  EvArgs, Handler, nothing, found, addr_params, addr_tuple, bare_addr, addr_number, two_addrs,
}

-- `if not test: raise BTPError("Invalid data length")`
abbrev pub check_length : Bool → Exec Stack (Unit {0})
check_length test s = if test then (ok tt, s) else (err btp_error, s)

-- `stack.gap`, where an attribute of it is used next
abbrev the_gap : Exec Stack Gap
the_gap s = of_option s.gap s

abbrev put_gap : Gap → Exec Stack (Unit {0})
put_gap g = modify (λ s. record s { gap = some g })

-- the loop of `__gap_current_settings_update`
unfoldable pub settings_update : List (ℕ × String) → ℕ → Gap → Gap
settings_update [] settings g = g
settings_update ((bit, name) ∷ rest) settings g =
    settings_update rest settings
      (if test_bit settings bit then current_settings_set g name else current_settings_clear g name)

-- `__gap_current_settings_update` on a number
abbrev pub gap_current_settings_update : Gap → ℕ → Gap
gap_current_settings_update g settings = settings_update gap_settings_btp2txt settings g

unfoldable pub gap_new_settings_ev_ : Bytes → Handler
gap_new_settings_ev_ dat = do
  curr_set ← lift (unpack_from u32 dat)
  gap ← the_gap
  put_gap (gap_current_settings_update gap curr_set)
  pure nothing

unfoldable pub gap_device_found_ev_ : Bytes → Handler
gap_device_found_ev_ dat = do
  check_length (leb 11 (length dat))
  (addr_type, addr, rssi, flags, eir_len) ← lift (unpack_from b_6s_b_b_h dat)
  let eir = drop 11 dat
  check_length (length eir == eir_len)
  let adv : LeAdv = record {
    addr = ble_from_wire addr_type addr;
    rssi = rssi;
    flags = flags;
    eir = eir;
  }
  gap ← the_gap
  put_gap (record gap { found_devices = gap.found_devices ++ adv ∷ [] })
  pure (found adv)

unfoldable pub gap_connected_ev_ : Bytes → Handler
gap_connected_ev_ dat = do
  (addr_type, a, itvl, latency, timeout) ← lift (unpack_from b_6s_h_h_h dat)
  let addr = ble_from_wire addr_type a
  let params : ConnParams = record {
    conn_itvl = itvl;
    conn_latency = latency;
    supervision_timeout = timeout;
  }
  gap ← the_gap
  put_gap (set_conn_params (connected gap addr) params)
  pure (addr_params addr params)

unfoldable pub gap_disconnected_ev_ : Bytes → Handler
gap_disconnected_ev_ dat = do
  (addr_type, a) ← lift (unpack_from b_6s dat)
  let addr = ble_from_wire addr_type a
  gap ← the_gap
  gap' ← lift (disconnected gap addr)
  put_gap gap'
  pure (addr_tuple addr)

unfoldable pub gap_passkey_entry_req_ev_ : Bytes → Handler
gap_passkey_entry_req_ev_ dat = do
  check_length (length dat == 7)
  (addr_type, a) ← lift (unpack b_6s dat)
  pure (addr_tuple (ble_from_wire addr_type a))

unfoldable pub gap_passkey_disp_ev_ : Bytes → Handler
gap_passkey_disp_ev_ dat = do
  (addr_type, a, passkey) ← lift (unpack b_6s_i dat)
  gap ← the_gap
  put_gap (record gap { passkey = some passkey })
  pure (addr_number (ble_from_wire addr_type a) passkey)

unfoldable pub gap_passkey_confirm_req_ev_ : Bytes → Handler
gap_passkey_confirm_req_ev_ dat = do
  (addr_type, a, passkey) ← lift (unpack b_6s_i dat)
  gap ← the_gap
  put_gap (record gap { passkey = some passkey })
  pure (addr_number (ble_from_wire addr_type a) passkey)

unfoldable pub gap_identity_resolved_ev_ : Bytes → Handler
gap_identity_resolved_ev_ dat = do
  check_length (length dat == 14)
  (addr_t, addr, id_addr_t, id_addr) ← lift (unpack_from b_6s_b_6s dat)
  let ota = ble_from_wire addr_t addr
  let identity = ble_from_wire id_addr_t id_addr
  gap ← the_gap
  put_gap (identity_resolved gap ota identity)
  pure (two_addrs ota identity)

unfoldable pub gap_conn_param_update_ev_ : Bytes → Handler
gap_conn_param_update_ev_ dat = do
  check_length (length dat == 13)
  (addr_t, a, itvl, latency, timeout) ← lift (unpack_from b_6s_h_h_h dat)
  let params : ConnParams = record {
    conn_itvl = itvl;
    conn_latency = latency;
    supervision_timeout = timeout;
  }
  gap ← the_gap
  put_gap (set_conn_params gap params)
  pure (addr_params (ble_from_wire addr_t a) params)

unfoldable pub gap_sec_level_changed_ev_ : Bytes → Handler
gap_sec_level_changed_ev_ dat = do
  check_length (length dat == 8)
  (addr_t, a, level) ← lift (unpack_from b_6s_b dat)
  pure (addr_number (ble_from_wire addr_t a) level)

unfoldable pub gap_pairing_consent_ev_ : Bytes → Handler
gap_pairing_consent_ev_ dat = do
  check_length (length dat == 7)
  (addr_t, a) ← lift (unpack_from b_6s dat)
  let bleaddr = ble_from_wire addr_t a
  modify (λ s. pairing_consent_cb s bleaddr)
  pure (bare_addr bleaddr)
