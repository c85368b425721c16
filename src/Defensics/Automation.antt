-- ===== src/Defensics/Automation.antt =====
-- `BTPAutomationHandler` of defensics/btp_automation_handler.py and `AutomationStatus` of
-- defensics/automation_status.py: the jobs of a fuzzer, one after another, and the lock that they
-- share with the thread that posts them.
use btptester_core.Prelude.{
  ℕ, zero, suc, Bool, true, false, ◌||◌, Option, none, some, List, [], ◌∷◌, ◌++◌, Text, String,
  if◌then◌else◌,
}
use btptester_core.Result.{
  Exc, Result, ok, err, key_error, plain_exception, socket_timeout, assertion_error, timeout_error,
  ◌>>=◌,
}
use btptester_core.Dict
use btptester_core.Dict.{Dict, string_eq}
use btptester_core.Exec
use btptester_core.Address.{BleAddress}
use btptester_core.Testcases.Bench.{Bench, Test}
use btptester_core.Defensics.Cases.Client.{codes}
use btptester_core.Defensics.Cases.{
  starts_with, get_before_case_handler, test_case_setup, test_case_check_health, test_case_teardown,
  Handler,
}

-- The texts of the errors; `exception` is the text of an exception of another class.
pub data Error : Type 0 where
  iut_crashed btp_timeout_error assertion_failed timeout_failed : Error
  exception : Exc → Error

pub record AutomationStatus : Type 0 where
  pub status : ℕ
  pub errors : List Error
  pub verdict : String

-- AutomationStatus()
abbrev pub fresh_status : AutomationStatus
fresh_status = record { status = 0; errors = []; verdict = "" }

-- An instrumentation step with its parameters.
pub record Job : Type 0 where
  pub instrumentation_step : Text
  pub params : Dict String Text

-- `iut` is held by a bench; `locked` is processing_lock.locked().
pub record BtpAutomationHandler : Type 0 where
  pub bench : Bench
  pub status : AutomationStatus
  pub locked : Bool
  pub q : List Job

-- A job that asks for a lock that is held waits for ever: the thread of the jobs is the only one
-- that would release it.
pub data Run : Type 0 where
  blocks : Run
  ends : Result (Unit {0}) → BtpAutomationHandler → Run

-- str.replace(text, old, new); `skip` characters still belong to a match
unfoldable pub replace_from : ℕ → Text → ℕ → Text → Text → Text
unfolding starts_with
replace_from skip old n new [] = []
replace_from (suc skip) old n new (c ∷ s) = replace_from skip old n new s
replace_from zero old n new (c ∷ s) =
    let matched = new ++ replace_from n old n new s in
    let next = c ∷ replace_from zero old n new s in
    if starts_with (c ∷ s) old then matched else next

-- part in text
unfoldable pub is_part : Text → Text → Bool
unfolding starts_with
is_part part [] = starts_with [] part
is_part part (c ∷ s) = starts_with (c ∷ s) part || is_part part s

abbrev pub param : Job → String → Result Text
param job name = elim (Dict.get job.params name) [ none ↦ err key_error | some v ↦ ok v ]

-- The client and the server have groups of the same names.
unfoldable pub group_of : Job → Result Text
unfolding replace_from is_part
group_of job = do
  test_group ← param job "CODE_TEST_GROUP"
  test_suite ← param job "CODE_SUITE"
  ok (
      if is_part (codes "smpc") test_suite
      then replace_from 0 (codes "SMP.") 3 (codes "SMPC.") test_group
      else test_group)

abbrev pub raised : Result (Unit {0}) → Bool
raised (ok done) = false
raised (err e) = true

-- What a job did under the lock, which is released at its end but not by an exception.
abbrev pub under_lock : Result (Unit {0}) × Bench → BtpAutomationHandler → Run
under_lock (r, b) a = ends r (record a { bench = b; locked = raised r })

-- `except socket.timeout` around the check of health
abbrev pub caught : Result (Unit {0}) → AutomationStatus → Result (Unit {0}) × AutomationStatus
caught (err socket_timeout) s =
    (ok tt, record s { status = 1; errors = s.errors ++ iut_crashed ∷ []; verdict = "fail" })
caught r s = (r, s)

-- `finally` behind it, which runs whatever was raised
abbrev pub finally_alive : AutomationStatus → AutomationStatus
finally_alive s = record s { status = 0; verdict = "success" }

abbrev pub checked : Result (Unit {0}) × AutomationStatus → Bench → BtpAutomationHandler → Run
checked (r, s) b a = under_lock (r, b) (record a { status = finally_alive s })

abbrev pub check_bench : Result (Unit {0}) × Bench → BtpAutomationHandler → Run
check_bench (r, b) a = checked (caught r a.status) b a

unfoldable pub as_instrumentation : BtpAutomationHandler → Run
as_instrumentation a = if a.locked then blocks else check_bench (test_case_check_health a.bench) a

-- `except` of the loop: what is noted about an exception
abbrev pub noted : Exc → Error
noted socket_timeout = btp_timeout_error
noted assertion_error = assertion_failed
noted timeout_error = timeout_failed
noted e = exception e

abbrev pub failed : Exc → AutomationStatus → AutomationStatus
failed e s = record s { errors = s.errors ++ noted e ∷ []; verdict = "fail" }

-- the handler after one turn of the loop, or none where the turn waits for ever
abbrev pub handled : Run → Option BtpAutomationHandler
handled blocks = none
handled (ends (ok done) a) = some a
handled (ends (err e) a) = some (record a { status = failed e a.status })

-- The thread that posts: a request waits while the lock is held, none where that never ends. The
-- queue has no bound.
unfoldable pub post : Job → BtpAutomationHandler → Option (Bool × BtpAutomationHandler)
post job a = if a.locked then none else some (true, record a { q = a.q ++ job ∷ [] })

unfoldable pub get_status : BtpAutomationHandler → AutomationStatus × BtpAutomationHandler
get_status a = (a.status, record a { status = fresh_status })

-- `ready` restarts the device and waits until it is up.
module _ (ready : Test (Unit {0})) (tester_addr : BleAddress) where
  -- set up, the steps of the case, tear down; every case is taken to be invalid
  unfoldable pub run_case : Handler tester_addr → Test (Unit {0})
  run_case hdl = Exec.◌>>◌ (test_case_setup ready) (Exec.◌>>◌ (hdl false) test_case_teardown)

  unfoldable pub before_case : Text → BtpAutomationHandler → Run
  unfolding run_case
  before_case test_group a = elim (get_before_case_handler tester_addr test_group) [
    | none ↦ ends (err plain_exception) a
    | some hdl ↦ if a.locked then blocks else under_lock (run_case hdl a.bench) a
  ]

  -- a step of another name does nothing
  abbrev pub step_of : Text → Text → BtpAutomationHandler → Run
  step_of instrumentation_step test_group a =
      if starts_with instrumentation_step (codes "/before-case")
      then before_case test_group a
      else if starts_with instrumentation_step (codes "/as-instrumentation")
      then as_instrumentation a
      else ends (ok tt) a

  abbrev pub on_group : Job → Result Text → BtpAutomationHandler → Run
  on_group job (err e) a = ends (err e) a
  on_group job (ok test_group) a = step_of job.instrumentation_step test_group a

  unfoldable pub process : Job → BtpAutomationHandler → Run
  process job a = on_group job (group_of job) a

  abbrev pub turn : List Job → BtpAutomationHandler → Option BtpAutomationHandler
  turn [] a = some a
  turn (job ∷ rest) a = handled (process job (record a { q = rest }))

  -- one turn of the loop of `run`
  unfoldable pub run_once : BtpAutomationHandler → Option BtpAutomationHandler
  unfolding process
  run_once a = turn a.q a
