-- ===== src/Defensics/Cases/Client.antt =====
-- `TestCaseHandler` of defensics/testcase_handler.py: the cases in which the device is a GATT client
-- of the fuzzer.
use Prim.Native.Char.{code}
use btptester_core.Prelude.{
  ℕ, zero, suc, ◌+◌, Option, none, some, List, [], ◌∷◌, Text, String, ◌==◌, if◌then◌else◌,
}
use btptester_core.Result.{Result, ok, err, btp_error_invalid_status}
use btptester_core.Defs.Core.{btp_service_id_gatt}
use btptester_core.Defs.Gatt as Ops
use btptester_core.Address.{BleAddress}
use btptester_core.GattDb.{
  GattDb, GattAttribute, get_services, get_characteristics, find_characteristic_end,
}
use btptester_core.GattDb.Handles.{Handle, num, hex}
use btptester_core.Exec.{pure, lift, ◌>>=◌, ◌>>◌}
use btptester_core.Worker.{read}
use btptester_core.Commands.Response.{btp_hdr_check}
use btptester_core.Commands.Args.{str_val}
use btptester_core.Commands.Gap.{gap_wait_for_connection}
use btptester_core.Commands.Gap.Connect.{gap_conn, gap_disconn}
use btptester_core.Commands.Gattc.{
  gattc_exchange_mtu, gattc_disc_prim_svcs, gattc_disc_prim_uuid, gattc_disc_all_chrc,
  gattc_disc_all_desc,
}
use btptester_core.Commands.Gattc.Values.{gattc_read, gattc_read_long, gattc_write}
use btptester_core.Commands.Gattc.Responses.{gattc_disc_prim_svcs_rsp, gattc_disc_all_chrc_rsp}
use btptester_core.Testcases.Bench.{Bench, Side, iut1, Test, on}
use btptester_core.Testcases.Procedures.{le_identity_address}
use btptester_core.Testcases.Gatt.{filled, range_of}
use btptester_core.Testcases.Gatt.Discovery.{value_handle}

abbrev pub codes : String → Text
codes String.[] = []
codes (String.◌∷◌ c s) = code c ∷ codes s

-- The device under test is the first of a bench.
abbrev pub dut : Side
dut = iut1

-- TesterConfig; only the address differs from one run to another
abbrev tester_read_hdl : Handle
tester_read_hdl = hex (codes "0x0003")

abbrev tester_write_hdl : Handle
tester_write_hdl = hex (codes "0x0005")

abbrev tester_service_uuid : Text
tester_service_uuid = codes "180f"

-- `except BTPErrorInvalidStatus: pass`
abbrev pass_status : Result (Unit {0}) × Bench → Result (Unit {0}) × Bench
pass_status (err btp_error_invalid_status, b) = (ok tt, b)
pass_status r = r

abbrev pub ignoring_status : Test (Unit {0}) → Test (Unit {0})
ignoring_status m b = pass_status (m b)

-- the response to a command of the GATT service, whatever its status
unfoldable pub any_response : ℕ → Test (Unit {0})
any_response op = do
  (tuple_hdr, tuple_data) ← on dut read
  ignoring_status (lift (btp_hdr_check tuple_hdr btp_service_id_gatt (some op)))

module _ (tester_addr : BleAddress) where
  unfoldable pub connect : Test (Unit {0})
  connect = do on dut (gap_conn tester_addr le_identity_address); on dut gap_wait_for_connection

  -- some cases of the fuzzer do not disconnect
  unfoldable pub disconnect : Test (Unit {0})
  disconnect = ignoring_status (on dut (gap_disconn tester_addr))

  unfoldable pub exchange_mtu : Test (Unit {0})
  unfolding connect any_response
  exchange_mtu = do
    connect
    on dut (gattc_exchange_mtu tester_addr)
    any_response Ops.gatt_exchange_mtu

  unfoldable pub discover_primary_services : Test (Unit {0})
  unfolding connect any_response disconnect
  discover_primary_services = do
    connect
    on dut (gattc_disc_prim_svcs tester_addr)
    any_response Ops.gatt_disc_prim_svcs
    disconnect

  unfoldable pub discover_service_by_uuid : Test (Unit {0})
  unfolding connect any_response
  discover_service_by_uuid = do
    connect
    on dut (gattc_disc_prim_uuid tester_addr tester_service_uuid)
    any_response Ops.gatt_disc_prim_uuid

  unfoldable pub discover_all_characteristics : Test (Unit {0})
  unfolding connect any_response
  discover_all_characteristics = do
    connect
    on dut (gattc_disc_all_chrc tester_addr (num 1) (num 0xffff) none)
    any_response Ops.gatt_disc_all_chrc

  -- the loop over the services
  unfoldable pub characteristics_of : List GattAttribute → GattDb → Test GattDb
  characteristics_of [] db = pure db
  characteristics_of (svc ∷ svcs) db = do
    (start, end_) ← range_of svc
    on dut (gattc_disc_all_chrc tester_addr start end_ none)
    db' ← on dut (filled db gattc_disc_all_chrc_rsp)
    characteristics_of svcs db'

  -- the fuzzer wants a request for one handle at the end of the range
  abbrev last_hdl : ℕ → ℕ → ℕ
  last_hdl start_hdl end_hdl = if end_hdl == 0xffff then start_hdl else end_hdl

  abbrev one_descriptors : ℕ → Option ℕ → Test (Unit {0})
  one_descriptors start_hdl none = pure tt
  one_descriptors start_hdl (some zero) = pure tt
  one_descriptors start_hdl (some (suc e)) = do
    on dut (gattc_disc_all_desc tester_addr (num start_hdl) (num (last_hdl start_hdl (suc e))))
    any_response Ops.gatt_disc_all_desc

  -- the loop over the characteristics
  unfoldable pub descriptors_in : GattDb → List GattAttribute → Test (Unit {0})
  unfolding any_response
  descriptors_in db [] = pure tt
  descriptors_in db (chr ∷ chrs) = do
    value_hdl ← value_handle chr
    end_hdl ← lift (find_characteristic_end db chr.handle)
    one_descriptors (value_hdl + 1) end_hdl
    descriptors_in db chrs

  unfoldable pub discover_characteristic_descriptors : Test (Unit {0})
  unfolding connect characteristics_of descriptors_in
  discover_characteristic_descriptors = do
    connect
    on dut (gattc_disc_prim_svcs tester_addr)
    db ← on dut (filled [] gattc_disc_prim_svcs_rsp)
    svcs ← lift (get_services db)
    db' ← characteristics_of svcs db
    chrs ← lift (get_characteristics db')
    descriptors_in db' chrs

  unfoldable pub read_attribute_value : Test (Unit {0})
  unfolding connect any_response
  read_attribute_value = do
    connect
    on dut (gattc_read tester_addr tester_read_hdl)
    any_response Ops.gatt_read

  unfoldable pub read_long_attribute_value : Test (Unit {0})
  unfolding connect any_response disconnect
  read_long_attribute_value = do
    connect
    on dut (gattc_read_long tester_addr tester_read_hdl (num 0) none)
    any_response Ops.gatt_read_long
    disconnect

  unfoldable pub write_attribute_value : Test (Unit {0})
  unfolding connect any_response
  write_attribute_value = do
    connect
    on dut (gattc_write tester_addr tester_write_hdl (str_val (codes "00")) none)
    any_response Ops.gatt_write
