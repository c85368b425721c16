-- ===== src/Testcases/Gatt/Discovery.antt =====
-- The test cases of testcases/GattTestCase.py on discovery and reading. `uuid` is os.urandom(2).
use btptester_core.Prelude.{ℕ, ◌+◌, Option, some, Bytes, Text}
use btptester_core.Result.{Result, ok, err, attribute_error}
use btptester_core.GattDb.{
  GattDb, GattAttribute, Kind, characteristic, find_svc_by_uuid, find_inc_svc_by_uuid,
  find_chr_by_uuid, find_dsc_by_uuid, find_characteristic_end,
}
use btptester_core.GattDb.Handles.{num}
use btptester_core.Exec.{pure, lift, ◌>>=◌, ◌>>◌}
use btptester_core.Testcases.Bench.{iut1, iut2, Test, assert_is_not_none}
use btptester_core.Testcases.Procedures.{connection_procedure, disconnection_procedure}
use btptester_core.Testcases.Skips.{Config, verify_skipped}
use btptester_core.Testcases.Gatt.{
  disc_prim_svcs, disc_prim_uuid, find_included_svcs, range_of, disc_all_chrc, disc_chrc_uuid,
  disc_all_desc,
}
use btptester_core.Testcases.Gatt.Steps.{read, read_long, assert_no_error}
use btptester_core.Testcases.Gatt.PtsDb

-- A look-up in a database, which must find something.
unfoldable pub found_in :
    {A : Type 0} → (GattDb → Text → Result (Option A)) → GattDb → Text → Test A
found_in find db uuid = do x ← lift (find db uuid); assert_is_not_none x

-- chr.value_handle
abbrev handle_of_value : Kind → Result ℕ
handle_of_value (characteristic prop value_handle) = ok value_handle
handle_of_value _ = err attribute_error

unfoldable pub value_handle : GattAttribute → Test ℕ
value_handle chr = lift (handle_of_value chr.kind)

-- the descriptors of a characteristic in `chars`, as far as its end
unfoldable pub descriptors_of : GattDb → GattAttribute → Test GattDb
unfolding value_handle
descriptors_of chars chr = do
  end_ ← lift (find_characteristic_end chars chr.handle)
  end_hdl ← assert_is_not_none end_
  value_hdl ← value_handle chr
  disc_all_desc iut1 iut2 (num (value_hdl + 1)) (num end_hdl)

-- the characteristics of the service PTS_DB.SVC, and the one that is read and written
unfoldable pub service_characteristics : Test (GattDb × GattAttribute)
unfolding found_in
service_characteristics = do
  db ← disc_prim_uuid iut1 iut2 PtsDb.svc
  svc ← found_in find_svc_by_uuid db PtsDb.svc
  (start_hdl, end_hdl) ← range_of svc
  chars ← disc_all_chrc iut1 iut2 start_hdl end_hdl
  chr ← found_in find_chr_by_uuid chars PtsDb.chr_read_write
  pure (chars, chr)

-- a descriptor of it
unfoldable pub service_descriptor : Text → Test GattAttribute
unfolding service_characteristics descriptors_of found_in
service_descriptor wanted = do
  (chars, chr) ← service_characteristics
  desc ← descriptors_of chars chr
  found_in find_dsc_by_uuid desc wanted

-- a characteristic that is looked for by its UUID on all handles
unfoldable pub characteristic_by_uuid : Text → Test (GattDb × GattAttribute)
unfolding found_in
characteristic_by_uuid wanted = do
  chars ← disc_chrc_uuid iut1 iut2 (num 0x0001) (num 0xffff) wanted
  chr ← found_in find_chr_by_uuid chars wanted
  pure (chars, chr)

module _ (config : Config) (uuid : Bytes) where
  unfoldable pub test_btp_gatt_cl_gad_1 : Test (Unit {0})
  unfolding found_in
  test_btp_gatt_cl_gad_1 = do
    verify_skipped config "test_btp_GATT_CL_GAD_1"
    connection_procedure uuid iut1 iut2
    db ← disc_prim_svcs iut1 iut2
    svc ← found_in find_svc_by_uuid db PtsDb.svc
    disconnection_procedure iut1 iut2

  unfoldable pub test_btp_gatt_cl_gad_2 : Test (Unit {0})
  unfolding found_in
  test_btp_gatt_cl_gad_2 = do
    verify_skipped config "test_btp_GATT_CL_GAD_2"
    connection_procedure uuid iut1 iut2
    db ← disc_prim_uuid iut1 iut2 PtsDb.svc
    svc ← found_in find_svc_by_uuid db PtsDb.svc
    disconnection_procedure iut1 iut2

  unfoldable pub test_btp_gatt_cl_gad_3 : Test (Unit {0})
  unfolding found_in
  test_btp_gatt_cl_gad_3 = do
    verify_skipped config "test_btp_GATT_CL_GAD_3"
    connection_procedure uuid iut1 iut2
    db ← disc_prim_svcs iut1 iut2
    db_2 ← find_included_svcs iut1 iut2 db
    svc ← found_in find_inc_svc_by_uuid db_2 PtsDb.inc_svc
    disconnection_procedure iut1 iut2

  unfoldable pub test_btp_gatt_cl_gad_4 : Test (Unit {0})
  unfolding service_characteristics
  test_btp_gatt_cl_gad_4 = do
    verify_skipped config "test_btp_GATT_CL_GAD_4"
    connection_procedure uuid iut1 iut2
    (chars, chr) ← service_characteristics
    disconnection_procedure iut1 iut2

  unfoldable pub test_btp_gatt_cl_gad_5 : Test (Unit {0})
  unfolding characteristic_by_uuid
  test_btp_gatt_cl_gad_5 = do
    verify_skipped config "test_btp_GATT_CL_GAD_5"
    connection_procedure uuid iut1 iut2
    (chars, chr) ← characteristic_by_uuid PtsDb.chr_read_write
    disconnection_procedure iut1 iut2

  unfoldable pub test_btp_gatt_cl_gad_6 : Test (Unit {0})
  unfolding service_descriptor
  test_btp_gatt_cl_gad_6 = do
    verify_skipped config "test_btp_GATT_CL_GAD_6"
    connection_procedure uuid iut1 iut2
    dsc ← service_descriptor PtsDb.dsc_read_write
    disconnection_procedure iut1 iut2

  unfoldable pub test_btp_gatt_cl_gar_1 : Test (Unit {0})
  unfolding characteristic_by_uuid value_handle
  test_btp_gatt_cl_gar_1 = do
    verify_skipped config "test_btp_GATT_CL_GAR_1"
    connection_procedure uuid iut1 iut2
    (chars, chr) ← characteristic_by_uuid PtsDb.chr_read_write
    hdl ← value_handle chr
    rsp ← read iut1 iut2 (num hdl)
    assert_no_error rsp
    disconnection_procedure iut1 iut2

  unfoldable pub test_btp_gatt_cl_gar_2 : Test (Unit {0})
  unfolding characteristic_by_uuid value_handle
  test_btp_gatt_cl_gar_2 = do
    verify_skipped config "test_btp_GATT_CL_GAR_2"
    connection_procedure uuid iut1 iut2
    (chars, chr) ← characteristic_by_uuid PtsDb.long_chr_read_write
    hdl ← value_handle chr
    rsp ← read_long iut1 iut2 (num hdl) (num 0) (some 40)
    assert_no_error rsp
    disconnection_procedure iut1 iut2

  unfoldable pub test_btp_gatt_cl_gar_3 : Test (Unit {0})
  unfolding service_descriptor
  test_btp_gatt_cl_gar_3 = do
    verify_skipped config "test_btp_GATT_CL_GAR_3"
    connection_procedure uuid iut1 iut2
    dsc ← service_descriptor PtsDb.dsc_read_write
    rsp ← read iut1 iut2 dsc.handle
    assert_no_error rsp
    disconnection_procedure iut1 iut2

  unfoldable pub test_btp_gatt_cl_gar_4 : Test (Unit {0})
  unfolding service_descriptor
  test_btp_gatt_cl_gar_4 = do
    verify_skipped config "test_btp_GATT_CL_GAR_4"
    connection_procedure uuid iut1 iut2
    dsc ← service_descriptor PtsDb.long_dsc_read_write
    rsp ← read_long iut1 iut2 dsc.handle (num 0) (some 40)
    assert_no_error rsp
    disconnection_procedure iut1 iut2
