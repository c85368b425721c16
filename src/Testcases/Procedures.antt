-- ===== src/Testcases/Procedures.antt =====
-- testcases/utils.py: `preconditions`, and how two devices are connected and disconnected.
use btptester_core.Prelude.{ℕ, Bool, true, false, not, Option, none, some, [], ◌∷◌, Bytes, ◌==◌}
use btptester_core.Result.{Result, ok, err, type_error, attribute_error}
use btptester_core.Defs.Core.{btp_service_id_gattc}
use btptester_core.Address.{BleAddress}
use btptester_core.Ad.{uuid16_some}
use btptester_core.Gap.{iut_addr_set, is_connected}
use btptester_core.Stack.{gap_init, gatt_init, gatt_cl_init}
use btptester_core.Exec.{pure, lift, ◌>>=◌, ◌>>◌}
use btptester_core.Events.Args.{EvArgs, found}
use btptester_core.Events.Waits.{gap_device_found_ev, gap_connected_ev, gap_disconnected_ev}
use btptester_core.Commands.Core.{
  read_supp_svcs, core_reg_svc_gap, core_reg_svc_gatt, core_reg_svc_gatt_cl, check_bit,
}
use btptester_core.Commands.Gap.{gap_set_conn, gap_set_gendiscov}
use btptester_core.Commands.Gap.Info.{gap_read_ctrl_info}
use btptester_core.Commands.Gap.Discover.{gap_start_discov, gap_stop_discov}
use btptester_core.Commands.Gap.Advertise.{plain, gap_adv_ind_on}
use btptester_core.Commands.Gap.Connect.{gap_conn, gap_disconn}
use btptester_core.Testcases.Bench.{
  Side, Test, iut, on, stack_of, modify_stack, gap_of, iut_addr_get, listen, wait_futures, result,
  assert_true, assert_is_not_none,
}
use btptester_core.Testcases.Utils.{verify_uuid, verify_address, first_of}

-- svcs[bit], where the services were never read
abbrev supports : Option Bytes → Result Bool
supports none = err type_error
supports (some svcs) = check_bit svcs btp_service_id_gattc

-- preconditions(iutctl): the GATT client service only for the device with id 0
module _ (x : Side) where
  abbrev register_gatt_cl : Bool → Test (Unit {0})
  register_gatt_cl false = pure tt
  register_gatt_cl true = do on x core_reg_svc_gatt_cl; modify_stack x gatt_cl_init

  abbrev for_central : Bool → Test (Unit {0})
  for_central false = pure tt
  for_central true = do
    s ← stack_of x
    supported ← lift (supports s.supported_svcs)
    register_gatt_cl supported

  unfoldable pub preconditions : Test (Unit {0})
  unfolding iut
  preconditions = do
    on x read_supp_svcs
    on x core_reg_svc_gap
    on x core_reg_svc_gatt
    modify_stack x gap_init
    modify_stack x gatt_init
    (λ b. for_central ((iut x b).id == 0) b)
    on x gap_read_ctrl_info

-- The address of `found`, which is an advertisement.
abbrev pub addr_of : EvArgs → Result BleAddress
addr_of (found adv) = ok adv.addr
addr_of _ = err attribute_error

-- iut.stack.gap.iut_addr_set(addr)
abbrev pub set_iut_addr : Side → BleAddress → Test (Unit {0})
set_iut_addr x addr = do
  g ← gap_of x
  modify_stack x (λ s. record s { gap = some (iut_addr_set g addr) })

-- AdDuration.forever and OwnAddrType.le_identity_address, the defaults of `gap_adv_ind_on`
abbrev pub forever : ℕ
forever = 0xffffffff

abbrev pub le_identity_address : ℕ
le_identity_address = 0

-- The device advertises `uuid`, and the other one looks for it: the same steps begin
-- `connection_procedure` and a test case. `uuid` is os.urandom(2).
unfoldable pub discovery : Bytes → Side → Side → Test EvArgs
discovery uuid central peripheral = do
  on peripheral gap_set_conn
  on peripheral gap_set_gendiscov
  on peripheral (gap_adv_ind_on ((uuid16_some, plain uuid) ∷ []) [] forever le_identity_address)
  on central (gap_start_discov "le" "active" "general")
  future ← listen central gap_device_found_ev (some (verify_uuid uuid))
  wait_futures (future ∷ [])
  on central gap_stop_discov
  adv ← result future
  assert_is_not_none adv

abbrev pub agrees : Bool → Bool → Bool
agrees true b = b
agrees false b = not b

-- what the procedures assert of a device in the end
unfoldable pub assert_connected : Bool → Side → Test (Unit {0})
assert_connected wanted x = do g ← gap_of x; assert_true (agrees wanted (is_connected g none))

-- connection_procedure(testcase, central, peripheral)
unfoldable pub connection_procedure : Bytes → Side → Side → Test (Unit {0})
unfolding discovery assert_connected
connection_procedure uuid central peripheral = do
  adv ← discovery uuid central peripheral
  addr ← lift (addr_of adv)
  set_iut_addr peripheral addr
  future_central ← listen central gap_connected_ev (some λ args. verify_address args addr)
  future_peripheral ← listen peripheral gap_connected_ev none
  target ← iut_addr_get peripheral
  on central (gap_conn target le_identity_address)
  wait_futures (future_central ∷ future_peripheral ∷ [])
  assert_connected true central
  assert_connected true peripheral
  args ← result future_peripheral
  central_addr ← lift (first_of args)
  set_iut_addr central central_addr

-- disconnection_procedure(testcase, central, peripheral)
unfoldable pub disconnection_procedure : Side → Side → Test (Unit {0})
unfolding assert_connected
disconnection_procedure central peripheral = do
  periph_addr ← iut_addr_get peripheral
  future_central ← listen central gap_disconnected_ev (some λ args. verify_address args periph_addr)
  future_peripheral ← listen peripheral gap_disconnected_ev none
  target ← iut_addr_get peripheral
  on central (gap_disconn target)
  wait_futures (future_central ∷ future_peripheral ∷ [])
  assert_connected false peripheral
  assert_connected false central
