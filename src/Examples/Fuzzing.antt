-- ===== src/Examples/Fuzzing.antt =====
-- A fuzzer over a device that has crashed, at concrete inputs.
use btptester_core.Prelude.{◌≡◌, refl, false, none, some, [], ◌∷◌, String}
use btptester_core.Result.{socket_timeout}
use btptester_core.Exec
use btptester_core.Address.{BleAddress}
use btptester_core.Testcases.Bench.{Bench, on}
use btptester_core.Testcases.Procedures.{preconditions}
use btptester_core.Commands.Core.{read_supp_svcs}
use btptester_core.Commands.Gap.Info.{gap_read_ctrl_info}
use btptester_core.Commands.Response.{gap_command_rsp_succ}
use btptester_core.Worker.{send_from, data_bytes, read}
use btptester_core.Parser.{enc_frame}
use btptester_core.Dict
use btptester_core.Examples.Discovery.{bench}
use btptester_core.Defensics.Cases.Client.{codes}
use btptester_core.Defensics.Cases.{
  advertise, get_before_case_handler, before_case_handlers, test_case_setup, test_case_check_health,
}
use btptester_core.Defensics.Automation.{
  iut_crashed, Job, group_of, run_case, BtpAutomationHandler, fresh_status, post, run_once,
}
use btptester_core.Defensics.Server.{do_post}
use btptester_core.Defensics.Turns.{do_post-crash, before_case-blocks}

-- neither device sends anything
abbrev silent : Bench
silent = record bench { arrivals = [] }

abbrev fuzzer : BleAddress
fuzzer = record { addr = codes "010203040506"; addr_type = 0 }

abbrev job : String → Job
job step = record {
  instrumentation_step = codes step;
  params =
      ("CODE_TEST_GROUP", codes "ATT.MTU-Exchange.length")
      ∷ ("CODE_SUITE", codes "ble-att-server")
      ∷ [];
}

abbrev idle : BtpAutomationHandler
idle = record { bench = silent; status = fresh_status; locked = false; q = [] }

do_post-crash_example :
    (posted turned answered : BtpAutomationHandler) × (do_post (job "/as-instrumentation") idle
      ≡ some (fresh_status, posted))
    × (run_once (Exec.pure tt) fuzzer posted ≡ some turned)
    × (do_post (job "/after-case") turned
        ≡ some (record { status = 0; errors = iut_crashed ∷ []; verdict = "success" }, answered))
unfolding group_of Dict.get test_case_check_health on gap_read_ctrl_info send_from data_bytes
    enc_frame gap_command_rsp_succ read
do_post-crash_example =
    do_post-crash (Exec.pure tt) fuzzer (job "/as-instrumentation") (job "/after-case")
      (codes "ATT.MTU-Exchange.length") idle (refl, [], refl) refl refl refl

before_case-blocks_example :
    (a' : BtpAutomationHandler) × (run_once
        (Exec.pure tt)
        fuzzer
        (record idle { q = job "/before-case" ∷ [] })
      ≡ some a')
    × (a'.status.verdict ≡ "fail")
    × (post (job "/after-case") a' ≡ none)
    × (run_once (Exec.pure tt) fuzzer (record a' { q = job "/as-instrumentation" ∷ [] }) ≡ none)
unfolding group_of Dict.get get_before_case_handler before_case_handlers run_case test_case_setup
    preconditions on read_supp_svcs send_from data_bytes enc_frame read
before_case-blocks_example =
    before_case-blocks (Exec.pure tt) fuzzer (job "/before-case") (job "/after-case")
      (job "/as-instrumentation") (codes "ATT.MTU-Exchange.length")
      (codes "ATT.MTU-Exchange.length") (record idle { q = job "/before-case" ∷ [] }) [] []
      (λ valid. advertise) socket_timeout (refl, [], refl) refl refl refl refl (refl, [], refl)
