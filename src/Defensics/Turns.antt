-- ===== src/Defensics/Turns.antt =====
-- Turns of the loop of `BTPAutomationHandler`: what a fuzzer is told, and what an exception leaves.
use btptester_core.Prelude.{
  arith, ◌≡◌, refl, ap, ◌∙◌, Bool, true, false, Option, none, some, List, [], ◌∷◌, ◌++◌, Text,
  String, if◌then◌else◌,
}
use btptester_core.Result.{Exc, ok, err, socket_timeout, plain_exception}
use btptester_core.Address.{BleAddress}
use btptester_core.Testcases.Bench.{Test}
use btptester_core.Defensics.Cases.Client.{codes}
use btptester_core.Defensics.Cases.{
  starts_with, get_before_case_handler, test_case_check_health, Handler,
}
use btptester_core.Defensics.Server.{do_post}
use btptester_core.Defensics.Automation.{
  iut_crashed, Job, BtpAutomationHandler, blocks, ends, group_of, under_lock, check_bench,
  as_instrumentation, failed, handled, post, get_status, fresh_status, run_case, before_case,
  process, run_once, on_group, step_of, turn, Run,
}

-- The job has its parameters and its step begins with the name.
abbrev pub Asks : String → Text → Job → Type 0
Asks name test_group job =
    (group_of job ≡ ok test_group) × (s : Text) × (job.instrumentation_step ≡ codes name ++ s)

do_post-free :
    (job : Job) (a : BtpAutomationHandler)
    → a.locked ≡ false
    → do_post job a ≡ some (a.status, record a { status = fresh_status; q = a.q ++ job ∷ [] })
unfolding do_post post get_status
do_post-free job a free = ground (arith, free)

module _ (ready : Test (Unit {0})) (tester_addr : BleAddress) where
  process-health :
      (job : Job) (g : Text) (a : BtpAutomationHandler)
      → Asks "/as-instrumentation" g job
      → process ready tester_addr job a ≡ as_instrumentation a
  unfolding process starts_with
  process-health job g a (e, s, f) =
      ap (λ r. on_group ready tester_addr job r a) e ∙ ap (λ t. step_of ready tester_addr t g a) f

  process-before_case :
      (job : Job) (g : Text) (a : BtpAutomationHandler)
      → Asks "/before-case" g job
      → process ready tester_addr job a ≡ before_case ready tester_addr g a
  unfolding process starts_with
  process-before_case job g a (e, s, f) =
      ap (λ r. on_group ready tester_addr job r a) e ∙ ap (λ t. step_of ready tester_addr t g a) f

  run_once-before_case :
      (job : Job) (g : Text) (a : BtpAutomationHandler) (rest : List Job)
      → Asks "/before-case" g job
      → a.q ≡ job ∷ rest
      → run_once ready tester_addr a
        ≡ handled (before_case ready tester_addr g (record a { q = rest }))
  unfolding run_once
  run_once-before_case job g a rest asks waiting =
      ap (λ q. turn ready tester_addr q a) waiting
      ∙ ap handled (process-before_case job g (record a { q = rest }) asks)

  as_instrumentation-crash :
      (a : BtpAutomationHandler)
      → a.locked ≡ false
      → (test_case_check_health a.bench).0 ≡ err socket_timeout
      → as_instrumentation a
        ≡ under_lock
            (ok tt, (test_case_check_health a.bench).1)
            (record a {
              status = record {
                status = 0;
                errors = a.status.errors ++ iut_crashed ∷ [];
                verdict = "success";
              };
            })
  unfolding as_instrumentation
  as_instrumentation-crash a free crash =
      let p = test_case_check_health a.bench in
      ap (λ l. if l then blocks else check_bench p a) free ∙ ap (λ r. check_bench (r, p.1) a) crash

  -- When the device does not answer in time, a fuzzer learns it as a success. It posts a step
  -- '/as-instrumentation' with its parameters to a handler whose lock is free and which has no
  -- other job, and is answered with the status that was there before. Once a turn of the loop has
  -- run, its next request, whatever that is, is answered with success, status 0 and the error.
  pub do_post-crash :
      (job next : Job) (g : Text) (a : BtpAutomationHandler)
      → Asks "/as-instrumentation" g job
      → a.locked ≡ false
      → a.q ≡ []
      → (test_case_check_health a.bench).0 ≡ err socket_timeout
      → (posted turned answered : BtpAutomationHandler) × (do_post job a ≡ some (a.status, posted))
        × (run_once ready tester_addr posted ≡ some turned)
        × (do_post next turned
            ≡ some
                (record { status = 0; errors = iut_crashed ∷ []; verdict = "success" }, answered))
  unfolding run_once
  do_post-crash job next g a asks free empty crash =
      let posted : BtpAutomationHandler = record a { status = fresh_status; q = job ∷ [] } in
      let taken : BtpAutomationHandler = record a { status = fresh_status; q = [] } in
      let turned : BtpAutomationHandler = record taken {
        bench = (test_case_check_health a.bench).1;
        locked = false;
        status = record { status = 0; errors = iut_crashed ∷ []; verdict = "success" };
      } in
      (
        posted,
        turned,
        record turned { status = fresh_status; q = next ∷ [] },
        do_post-free job a free
            ∙ ap (λ q. some (a.status, record a { status = fresh_status; q = q ++ job ∷ [] }))
                empty,
        ap handled (process-health job g taken asks ∙ as_instrumentation-crash taken free crash),
        do_post-free next turned refl,
      )

  run_case-raises :
      (g : Text) (a : BtpAutomationHandler) (hdl : Handler tester_addr) (e : Exc)
      → a.locked ≡ false
      → get_before_case_handler tester_addr g ≡ some hdl
      → (run_case ready tester_addr hdl a.bench).0 ≡ err e
      → before_case ready tester_addr g a
        ≡ under_lock (err e, (run_case ready tester_addr hdl a.bench).1) a
  unfolding before_case
  run_case-raises g a hdl e free found raises =
      let p = run_case ready tester_addr hdl a.bench in
      ap
        (λ h. elim h [
          | none ↦ ends (err plain_exception) a
          | some hdl ↦
              if a.locked then blocks else under_lock (run_case ready tester_addr hdl a.bench) a
        ])
        found
      ∙ ap (λ l. if l then blocks else under_lock p a) free
      ∙ ap (λ r. under_lock (r, p.1) a) raises

  -- with the lock held a request waits for ever, and so does a check of health
  locked-blocks :
      (a : BtpAutomationHandler) (request next : Job) (g : Text) (later : List Job)
      → a.locked ≡ true
      → Asks "/as-instrumentation" g next
      → (post request a ≡ none)
        × (run_once ready tester_addr (record a { q = next ∷ later }) ≡ none)
  unfolding post run_once as_instrumentation
  locked-blocks a request next g later held asks =
      let posted : Option (Bool × BtpAutomationHandler) =
        some (true, record a { q = a.q ++ request ∷ [] }) in
      let check : Run = check_bench (test_case_check_health a.bench) (record a { q = later }) in
      (
        ap (λ l. if l then none else posted) held,
        ap handled (
            process-health next g (record a { q = later }) asks
            ∙ ap (λ l. if l then blocks else check) held),
      )

  -- When the lock is free, the next job is a step '/before-case' with its parameters and a handler
  -- for its group, and the set up or the handler raises, then a turn leaves the verdict fail and
  -- the lock held: every request waits for ever, and so does the loop when its next job is a step
  -- '/as-instrumentation' with its parameters.
  pub before_case-blocks :
      (job request next : Job) (g g' : Text) (a : BtpAutomationHandler) (rest later : List Job)
      (hdl : Handler tester_addr) (e : Exc)
      → Asks "/before-case" g job
      → a.locked ≡ false
      → a.q ≡ job ∷ rest
      → get_before_case_handler tester_addr g ≡ some hdl
      → (run_case ready tester_addr hdl a.bench).0 ≡ err e
      → Asks "/as-instrumentation" g' next
      → (a' : BtpAutomationHandler) × (run_once ready tester_addr a ≡ some a')
        × (a'.status.verdict ≡ "fail")
        × (post request a' ≡ none)
        × (run_once ready tester_addr (record a' { q = next ∷ later }) ≡ none)
  before_case-blocks job request next g g' a rest later hdl e asks free waiting found raises asks' =
      let b = (run_case ready tester_addr hdl a.bench).1 in
      let a' : BtpAutomationHandler = record a {
        bench = b;
        locked = true;
        q = rest;
        status = failed e a.status;
      } in
      let case : before_case ready tester_addr g (record a { q = rest }) ≡ _ =
        run_case-raises g (record a { q = rest }) hdl e free found raises in
      let stuck = locked-blocks a' request next g' later refl asks' in
      (a', run_once-before_case job g a rest asks waiting ∙ ap handled case, refl, stuck.0, stuck.1)
