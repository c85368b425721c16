-- ===== src/Testcases/Gap.antt =====
-- testcases/GapTestCase.py. `uuid` is os.urandom(2).
use btptester_core.Prelude.{
  ℕ, ◌+◌, ◌==◌, true, false, Option, none, some, List, [], ◌∷◌, ◌++◌, Bytes,
}
use btptester_core.Result.{Result, ok, err, type_error, value_error}
use btptester_core.Address.{BleAddress}
use btptester_core.Gap.{ConnParams}
use btptester_core.Exec.{pure, lift, of_option, ◌>>=◌, ◌>>◌}
use btptester_core.Events.Args.{EvArgs, addr_number}
use btptester_core.Events.Waits.{
  gap_connected_ev, gap_passkey_entry_req_ev, gap_passkey_disp_ev, gap_passkey_confirm_req_ev,
  gap_conn_param_update_ev, gap_sec_level_changed_ev,
}
use btptester_core.Commands.Args.{int}
use btptester_core.Commands.Gap.Info.{gap_passkey_entry_rsp}
use btptester_core.Commands.Gap.Connect.{
  gap_conn, gap_set_io_cap, gap_pair, gap_passkey_confirm, gap_conn_param_update,
  gap_start_direct_adv,
}
use btptester_core.Testcases.Bench.{
  IutType, android, mynewt, Side, iut1, iut2, Test, Future, iut, on, gap_of, iut_addr_get, listen,
  wait_futures, result, assert_true,
}
use btptester_core.Testcases.Utils.{verify_address, verify_conn_params}
use btptester_core.Testcases.Procedures.{
  discovery, connection_procedure, disconnection_procedure, assert_connected, le_identity_address,
}
use btptester_core.Testcases.Skips.{Config, verify_skipped}

-- IOCap
abbrev display_only : ℕ
display_only = 0

abbrev display_yesno : ℕ
display_yesno = 1

abbrev keyboard_only : ℕ
keyboard_only = 2

abbrev no_input_output : ℕ
no_input_output = 3

-- `_, n = future.result()` and `future.result()[1]`; the events that are awaited this way come as
-- an address and a number, and others are refused
unfoldable pub number_of : Option EvArgs → Result ℕ
number_of none = err type_error
number_of (some (addr_number a n)) = ok n
number_of (some _) = err value_error

abbrev pub number_from : Future → Test ℕ
number_from f = do r ← result f; lift (number_of r)

-- the security level changed events of both, and the level that both must report
unfoldable pub assert_levels : ℕ → Future → Future → Test (Unit {0})
unfolding number_of
assert_levels wanted one other = do
  level ← number_from one
  assert_true (level == wanted)
  level' ← number_from other
  assert_true (level' == wanted)

unfoldable pub await_levels : ℕ → Test (Unit {0})
unfolding assert_levels
await_levels wanted = do
  future_master ← listen iut1 gap_sec_level_changed_ev none
  future_slave ← listen iut2 gap_sec_level_changed_ev none
  wait_futures (future_master ∷ future_slave ∷ [])
  assert_levels wanted future_master future_slave

module _ (config : Config) (uuid : Bytes) where
  unfoldable pub test_btp_gap_disc_genm_1 : Test (Unit {0})
  test_btp_gap_disc_genm_1 = do
    verify_skipped config "test_btp_GAP_DISC_GENM_1"
    adv ← discovery uuid iut1 iut2
    pure tt

  unfoldable pub test_btp_gap_conn_gcep_1 : Test (Unit {0})
  test_btp_gap_conn_gcep_1 = do
    verify_skipped config "test_btp_GAP_CONN_GCEP_1"
    connection_procedure uuid iut1 iut2
    disconnection_procedure iut1 iut2

  unfoldable pub test_btp_gap_conn_dcon_1 : Test (Unit {0})
  test_btp_gap_conn_dcon_1 = do
    verify_skipped config "test_btp_GAP_CONN_DCON_1"
    connection_procedure uuid iut2 iut1
    iut_addr ← iut_addr_get iut1
    iut2_addr ← iut_addr_get iut2
    future_iut1 ← listen iut1 gap_sec_level_changed_ev (some λ args. verify_address args iut2_addr)
    future_iut2 ← listen iut2 gap_sec_level_changed_ev (some λ args. verify_address args iut_addr)
    peer ← iut_addr_get iut2
    on iut1 (gap_pair peer)
    wait_futures (future_iut1 ∷ future_iut2 ∷ [])
    disconnection_procedure iut2 iut1
    peer' ← iut_addr_get iut2
    on iut1 (gap_start_direct_adv peer' false false)
    -- the address is looked up when the test of the listener runs; it does not change till then
    expected ← iut_addr_get iut1
    future_central ← listen iut2 gap_connected_ev (some λ args. verify_address args expected)
    future_peripheral ← listen iut1 gap_connected_ev none
    target ← iut_addr_get iut1
    on iut2 (gap_conn target le_identity_address)
    wait_futures (future_central ∷ future_peripheral ∷ [])
    assert_connected true iut2
    assert_connected true iut1
    disconnection_procedure iut2 iut1

  abbrev await_update :
      IutType → Side → BleAddress → ConnParams → ℕ → List Future → Test (List Future)
  await_update android x addr params latency futures = pure futures
  await_update mynewt x addr params latency futures = do
    f ← listen x gap_conn_param_update_ev (
        some λ args.
          verify_conn_params args addr params.conn_itvl params.conn_itvl latency
            params.supervision_timeout)
    pure (futures ++ f ∷ [])

  -- What both tests of the parameter update do: `initiator` asks for two more events of latency.
  -- Android does not report the update.
  unfoldable pub param_update : Side → Side → Test (Unit {0})
  unfolding iut
  param_update initiator responder = do
    connection_procedure uuid iut1 iut2
    g ← gap_of iut1
    conn_params ← of_option g.conn_params
    iut_addr ← iut_addr_get initiator
    peer_addr ← iut_addr_get responder
    let latency = conn_params.conn_latency + 2
    on initiator (
        gap_conn_param_update peer_addr conn_params.conn_itvl conn_params.conn_itvl latency
          conn_params.supervision_timeout)
    futures ← await_update mynewt initiator peer_addr conn_params latency []
    futures' ←
        λ b. await_update (iut responder b).type responder iut_addr conn_params latency futures b
    wait_futures futures'
    disconnection_procedure iut1 iut2

  unfoldable pub test_btp_gap_conn_cpup_1 : Test (Unit {0})
  unfolding param_update
  test_btp_gap_conn_cpup_1 = do
    verify_skipped config "test_btp_GAP_CONN_CPUP_1"
    param_update iut2 iut1

  unfoldable pub test_btp_gap_conn_cpup_2 : Test (Unit {0})
  unfolding param_update
  test_btp_gap_conn_cpup_2 = do
    verify_skipped config "test_btp_GAP_CONN_CPUP_2"
    param_update iut1 iut2

  -- Just Works
  unfoldable pub test_btp_gap_conn_pair_1 : Test (Unit {0})
  unfolding assert_levels
  test_btp_gap_conn_pair_1 = do
    verify_skipped config "test_btp_GAP_CONN_PAIR_1"
    on iut2 (gap_set_io_cap no_input_output)
    connection_procedure uuid iut1 iut2
    future_iut1 ← listen iut1 gap_sec_level_changed_ev none
    future_iut2 ← listen iut2 gap_sec_level_changed_ev none
    peer ← iut_addr_get iut2
    on iut1 (gap_pair peer)
    wait_futures (future_iut1 ∷ future_iut2 ∷ [])
    assert_levels 1 future_iut1 future_iut2
    disconnection_procedure iut1 iut2

  -- Numeric Comparison
  unfoldable pub test_btp_gap_conn_pair_2 : Test (Unit {0})
  unfolding await_levels
  test_btp_gap_conn_pair_2 = do
    verify_skipped config "test_btp_GAP_CONN_PAIR_2"
    on iut1 (gap_set_io_cap display_yesno)
    on iut2 (gap_set_io_cap display_yesno)
    connection_procedure uuid iut1 iut2
    peer ← iut_addr_get iut2
    on iut1 (gap_pair peer)
    future_master ← listen iut1 gap_passkey_confirm_req_ev none
    future_slave ← listen iut2 gap_passkey_confirm_req_ev none
    wait_futures (future_master ∷ future_slave ∷ [])
    pk_iut1 ← number_from future_master
    pk_iut2 ← number_from future_slave
    assert_true (pk_iut1 == pk_iut2)
    to_slave ← iut_addr_get iut2
    on iut1 (gap_passkey_confirm to_slave 1)
    to_master ← iut_addr_get iut1
    on iut2 (gap_passkey_confirm to_master 1)
    await_levels 3
    disconnection_procedure iut1 iut2

  -- Keyboard Input
  unfoldable pub test_btp_gap_conn_pair_3 : Test (Unit {0})
  unfolding await_levels
  test_btp_gap_conn_pair_3 = do
    verify_skipped config "test_btp_GAP_CONN_PAIR_3"
    on iut1 (gap_set_io_cap keyboard_only)
    on iut2 (gap_set_io_cap display_only)
    connection_procedure uuid iut1 iut2
    peer ← iut_addr_get iut2
    on iut1 (gap_pair peer)
    iut2_addr ← iut_addr_get iut2
    future_slave ← listen iut2 gap_passkey_disp_ev none
    future_master ← listen iut1 gap_passkey_entry_req_ev none
    wait_futures (future_master ∷ future_slave ∷ [])
    pk_iut2 ← number_from future_slave
    on iut1 (gap_passkey_entry_rsp iut2_addr (int pk_iut2))
    await_levels 3
    disconnection_procedure iut1 iut2
