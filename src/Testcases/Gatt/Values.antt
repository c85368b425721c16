-- ===== src/Testcases/Gatt/Values.antt =====
-- The test cases of testcases/GattTestCase.py on writing, notifications and indications.
use btptester_core.Prelude.{ℕ, zero, suc, [], ◌∷◌, Option, none, some, Bytes, Text, text_eq}
use btptester_core.Result.{Result, ok, err, type_error, value_error}
use btptester_core.GattDb.{find_dsc_by_uuid}
use btptester_core.GattDb.Handles.{Handle, num}
use btptester_core.Exec.{pure, lift, ◌>>=◌, ◌>>◌}
use btptester_core.Events.Args.{EvArgs, value_changed}
use btptester_core.Commands.Args.{str_val}
use btptester_core.Testcases.Bench.{
  iut1, iut2, Test, Future, iut_addr_get, wait_futures, result, assert_true,
}
use btptester_core.Testcases.Utils.{verify_notification_ev}
use btptester_core.Testcases.Procedures.{connection_procedure, disconnection_procedure}
use btptester_core.Testcases.Skips.{Config, verify_skipped}
use btptester_core.Testcases.Gatt.Steps.{
  Notification, write, write_long, assert_no_error, cfg_notify, cfg_indicate,
}
use btptester_core.Testcases.Gatt.PtsDb
use btptester_core.Testcases.Gatt.Discovery.{
  found_in, value_handle, descriptors_of, service_descriptor, characteristic_by_uuid,
}

-- "FF" * n
unfoldable pub ff_times : ℕ → Text
ff_times zero = []
ff_times (suc n) = b'F' ∷ b'F' ∷ ff_times n

-- `hdl, data = future.result()` of an attribute value changed event
abbrev value_of : Option EvArgs → Result Text
value_of (some (value_changed h v)) = ok v
value_of none = err type_error
value_of (some _) = err value_error

-- the server must report the value that was written
unfoldable pub assert_written : Future → Text → Test (Unit {0})
assert_written future new_value = do
  wait_futures (future ∷ [])
  args ← result future
  written ← lift (value_of args)
  assert_true (text_eq written new_value)

-- the descriptor that turns notifications on, and the handle of the value
unfoldable pub notifying : Test (Handle × ℕ)
unfolding characteristic_by_uuid descriptors_of found_in value_handle
notifying = do
  (chars, chr) ← characteristic_by_uuid PtsDb.chr_notify
  desc ← descriptors_of chars chr
  dsc ← found_in find_dsc_by_uuid desc PtsDb.ccc
  hdl ← value_handle chr
  pure (dsc.handle, hdl)

unfoldable pub assert_notification : Notification → ℕ → ℕ → Test (Unit {0})
assert_notification subscribe type hdl = do
  addr ← iut_addr_get iut2
  assert_true (verify_notification_ev subscribe addr type hdl)

module _ (config : Config) (uuid : Bytes) where
  unfoldable pub test_btp_gatt_cl_gaw_1 : Test (Unit {0})
  unfolding characteristic_by_uuid value_handle assert_written ff_times
  test_btp_gatt_cl_gaw_1 = do
    verify_skipped config "test_btp_GATT_CL_GAW_1"
    connection_procedure uuid iut1 iut2
    (chars, chr) ← characteristic_by_uuid PtsDb.chr_read_write
    hdl ← value_handle chr
    (rsp, future) ← write iut1 iut2 (num hdl) (str_val (ff_times 1))
    assert_no_error rsp
    assert_written future (ff_times 1)
    disconnection_procedure iut1 iut2

  unfoldable pub test_btp_gatt_cl_gaw_2 : Test (Unit {0})
  unfolding characteristic_by_uuid value_handle assert_written ff_times
  test_btp_gatt_cl_gaw_2 = do
    verify_skipped config "test_btp_GATT_CL_GAW_2"
    connection_procedure uuid iut1 iut2
    (chars, chr) ← characteristic_by_uuid PtsDb.long_chr_read_write
    hdl ← value_handle chr
    (rsp, future) ← write_long iut1 iut2 (num hdl) (num 0) (str_val (ff_times 100))
    assert_no_error rsp
    assert_written future (ff_times 100)
    disconnection_procedure iut1 iut2

  -- the response of the write is not asserted here
  unfoldable pub test_btp_gatt_cl_gaw_3 : Test (Unit {0})
  unfolding service_descriptor assert_written ff_times
  test_btp_gatt_cl_gaw_3 = do
    verify_skipped config "test_btp_GATT_CL_GAW_3"
    connection_procedure uuid iut1 iut2
    dsc ← service_descriptor PtsDb.dsc_read_write
    (rsp, future) ← write iut1 iut2 dsc.handle (str_val (ff_times 1))
    assert_written future (ff_times 1)
    disconnection_procedure iut1 iut2

  unfoldable pub test_btp_gatt_cl_gaw_4 : Test (Unit {0})
  unfolding service_descriptor assert_written ff_times
  test_btp_gatt_cl_gaw_4 = do
    verify_skipped config "test_btp_GATT_CL_GAW_4"
    connection_procedure uuid iut1 iut2
    dsc ← service_descriptor PtsDb.long_dsc_read_write
    (rsp, future) ← write_long iut1 iut2 dsc.handle (num 0) (str_val (ff_times 100))
    assert_no_error rsp
    assert_written future (ff_times 100)
    disconnection_procedure iut1 iut2

  unfoldable pub test_btp_gatt_cl_gan_1 : Test (Unit {0})
  unfolding notifying assert_notification
  test_btp_gatt_cl_gan_1 = do
    verify_skipped config "test_btp_GATT_CL_GAN_1"
    connection_procedure uuid iut1 iut2
    (dsc, hdl) ← notifying
    subscribe ← cfg_notify iut1 iut2 1 dsc
    assert_notification subscribe 0x01 hdl
    disconnection_procedure iut1 iut2

  unfoldable pub test_btp_gatt_cl_gai_1 : Test (Unit {0})
  unfolding notifying assert_notification
  test_btp_gatt_cl_gai_1 = do
    verify_skipped config "test_btp_GATT_CL_GAI_1"
    connection_procedure uuid iut1 iut2
    (dsc, hdl) ← notifying
    subscribe ← cfg_indicate iut1 iut2 1 dsc
    assert_notification subscribe 0x02 hdl
    disconnection_procedure iut1 iut2
