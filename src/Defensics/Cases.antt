-- ===== src/Defensics/Cases.antt =====
-- `TestCaseHandler` of defensics/testcase_handler.py: what is done with the device in front of a
-- case of the fuzzer.
pub mod Client
use btptester_core.Prelude.{
  ℕ, ◌&&◌, Bool, true, false, Option, none, some, List, [], ◌∷◌, Text, String, ◌==◌, if◌then◌else◌,
}
use btptester_core.Result.{
  Result, ok, err, btp_error_invalid_status, timeout_error, assertion_error,
}
use btptester_core.Defs.Gatt as Ops
use btptester_core.Address.{BleAddress}
use btptester_core.Exec.{pure, lift, ◌>>=◌, ◌>>◌}
use btptester_core.Events.Waits.{
  gap_device_found_ev, gap_passkey_confirm_req_ev, gap_passkey_entry_req_ev,
}
use btptester_core.Commands.Args.{Number, digits}
use btptester_core.Commands.Gap.{gap_set_conn, gap_set_gendiscov}
use btptester_core.Commands.Gap.Connect.{gap_set_io_cap, gap_passkey_confirm}
use btptester_core.Commands.Gap.Discover.{gap_start_discov, gap_stop_discov}
use btptester_core.Commands.Gap.Advertise.{gap_adv_ind_on}
use btptester_core.Commands.Gap.Info.{gap_read_ctrl_info, gap_passkey_entry_rsp}
use btptester_core.Testcases.Bench.{Bench, Test, on, listen, wait_futures, result}
use btptester_core.Testcases.Utils.{find_adv_by_addr}
use btptester_core.Testcases.Procedures.{preconditions, forever, le_identity_address}
use btptester_core.Testcases.Gap.{number_from}
use btptester_core.Defensics.Cases.Client.{
  codes, dut, connect, exchange_mtu, discover_primary_services, discover_service_by_uuid,
  discover_all_characteristics, discover_characteristic_descriptors, read_attribute_value,
  read_long_attribute_value, write_attribute_value,
}

abbrev tester_passkey : Number
tester_passkey = digits (codes "000000")

-- `except (TimeoutError, BTPErrorInvalidStatus) as e: if valid: raise e`
abbrev pass_invalid : Bool → Result (Unit {0}) × Bench → Result (Unit {0}) × Bench
pass_invalid false (err timeout_error, b) = (ok tt, b)
pass_invalid false (err btp_error_invalid_status, b) = (ok tt, b)
pass_invalid valid r = r

abbrev pub unless_valid : Bool → Test (Unit {0}) → Test (Unit {0})
unless_valid valid m b = pass_invalid valid (m b)

unfoldable pub advertise : Test (Unit {0})
advertise = do
  on dut gap_set_conn
  on dut gap_set_gendiscov
  on dut (gap_adv_ind_on [] [] forever le_identity_address)

-- IOCap.keyboard_display
abbrev keyboard_display : ℕ
keyboard_display = 4

module _ (ready : Test (Unit {0})) where
  unfoldable pub test_case_setup : Test (Unit {0})
  test_case_setup = do ready; preconditions dut

unfoldable pub test_case_check_health : Test (Unit {0})
test_case_check_health = on dut gap_read_ctrl_info

abbrev pub test_case_teardown : Test (Unit {0})
test_case_teardown = pure tt

module _ (tester_addr : BleAddress) where
  -- `results[1]` of a passkey is never None
  unfoldable pub confirm_passkey : Bool → Test (Unit {0})
  confirm_passkey valid = do
    future ← listen dut gap_passkey_confirm_req_ev none
    unless_valid valid (do
      wait_futures (future ∷ [])
      pk_iut ← number_from future
      on dut (gap_passkey_confirm tester_addr 1))

  unfoldable pub enter_passkey : Bool → Test (Unit {0})
  enter_passkey valid = do
    future ← listen dut gap_passkey_entry_req_ev none
    unless_valid valid
        (do wait_futures (future ∷ []); on dut (gap_passkey_entry_rsp tester_addr tester_passkey))

  abbrev pub server : Test (Unit {0}) → Test (Unit {0})
  server rest = do on dut (gap_set_io_cap keyboard_display); advertise; rest

  abbrev pub client : Test (Unit {0}) → Test (Unit {0})
  client rest = do on dut (gap_set_io_cap keyboard_display); connect tester_addr; rest

  -- a search that times out is stopped all the same
  abbrev stop_search : Bool → Test (Unit {0})
  stop_search true = do on dut gap_stop_discov; lift (err timeout_error)
  stop_search false = on dut gap_stop_discov

  abbrev after_search : Bool → Result (Unit {0}) × Bench → Result (Unit {0}) × Bench
  after_search valid (err timeout_error, b) = stop_search valid b
  after_search valid r = r

  unfoldable pub advertising_data : Bool → Test (Unit {0})
  advertising_data valid = do
    on dut (gap_start_discov "le" "active" "general")
    future ← listen dut gap_device_found_ev (some λ args. find_adv_by_addr args tester_addr)
    λ b. after_search valid (
        (do
          wait_futures (future ∷ [])
          on dut gap_stop_discov
          r ← result future
          lift (elim r [ none ↦ err assertion_error | some args ↦ ok tt ]))
          b)

  -- before_case_handlers, in the order of the dict
  abbrev pub Handler : Type 0
  Handler = Bool → Test (Unit {0})

  unfoldable pub before_case_handlers : List (String × Handler)
  unfolding exchange_mtu discover_primary_services discover_service_by_uuid
      discover_all_characteristics discover_characteristic_descriptors read_attribute_value
      read_long_attribute_value write_attribute_value confirm_passkey enter_passkey advertising_data
      advertise connect
  before_case_handlers =
      ("ATT.MTU-exchange", λ valid. exchange_mtu tester_addr)
      ∷ ("ATT.Discover-primary-services", λ valid. discover_primary_services tester_addr)
      ∷ ("ATT.Discover-service-by-uuid", λ valid. discover_service_by_uuid tester_addr)
      ∷ (
        "ATT.Characteristic-Discovery.discover-all-characteristics",
        λ valid. discover_all_characteristics tester_addr,
      )
      ∷ (
        "ATT.Characteristic-Discovery.discover-characteristic-descriptors",
        λ valid. discover_characteristic_descriptors tester_addr,
      )
      ∷ ("ATT.Read-attribute-value", λ valid. read_attribute_value tester_addr)
      ∷ ("ATT.Read-long-attribute-value", λ valid. read_long_attribute_value tester_addr)
      ∷ ("ATT.Write-attribute-value", λ valid. write_attribute_value tester_addr)
      ∷ ("ATT.MTU-Exchange", λ valid. advertise)
      ∷ ("ATT.Primary-Service-Discovery", λ valid. advertise)
      ∷ ("ATT.Relationship-Discovery", λ valid. advertise)
      ∷ (
        "ATT.Characteristic-Discovery.Discover-All-Characteristics-Of-A-Service",
        λ valid. advertise,
      )
      ∷ ("ATT.Characteristic-Value-Read", λ valid. advertise)
      ∷ ("ATT.Characteristic-Value-Write", λ valid. advertise)
      ∷ ("SMP.SMP-SC-just-works", λ valid. server (pure tt))
      ∷ ("SMP.SMP-SC-numeric-comparison", λ valid. server (confirm_passkey valid))
      ∷ ("SMP.SMP-SC-passkey-entry", λ valid. server (enter_passkey valid))
      ∷ ("SMPC.SMP-SC-just-works", λ valid. client (pure tt))
      ∷ ("SMPC.SMP-SC-numeric-comparison", λ valid. client (confirm_passkey valid))
      ∷ ("SMPC.SMP-SC-passkey-entry", λ valid. client (enter_passkey valid))
      ∷ ("Advertising-Data", advertising_data)
      ∷ []

-- key.startswith(prefix)
unfoldable pub starts_with : Text → Text → Bool
starts_with key [] = true
starts_with [] (p ∷ prefix) = false
starts_with (k ∷ key) (p ∷ prefix) = (k == p) && starts_with key prefix

-- the first entry whose key is a prefix
unfoldable pub first_with : {A : Type 0} → Text → List (String × A) → Option A
unfolding starts_with
first_with key [] = none
first_with key ((k, v) ∷ rest) =
    let later = first_with key rest in if starts_with key (codes k) then some v else later

unfoldable pub get_before_case_handler : BleAddress → Text → Option (Bool → Test (Unit {0}))
unfolding first_with
get_before_case_handler tester_addr key = first_with key (before_case_handlers tester_addr)
