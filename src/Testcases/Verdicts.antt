-- ===== src/Testcases/Verdicts.antt =====
-- What a test case that passes has seen.
use btptester_core.Prelude.{
  ℕ, suc, ◌<◌, ◌≤◌, ◌≡◌, refl, sym, ◌∙◌, subst, arith, Bool, true, Option, none, some, List, [],
  ◌∷◌, Bytes, All,
}
use btptester_core.Result.{Result, ok}
use btptester_core.Exec.{◌>>=◌, ◌>>◌}
use btptester_core.Dict.{Dict}
use btptester_core.Events.Args.{EvArgs}
use btptester_core.Events.Handler.Listeners.{BtpEventListener, BtpEventHandler, EvKey}
use btptester_core.Events.Handler.Dispatch.{accepts}
use btptester_core.Events.Waits.{gap_device_found_ev}
use btptester_core.Testcases.Bench.{
  Bench, Side, Test, Future, iut, handler_of, pause, on, listen, find_released, resolved, result,
  wait_futures, assert_is_not_none,
}
use btptester_core.Defs.Core.{btp_service_id_gap}
use btptester_core.Defs.Gap as Ops
use btptester_core.Testcases.Utils.{verify_uuid}
use btptester_core.Testcases.Procedures.{discovery, forever, le_identity_address}
use btptester_core.Ad.{uuid16_some}
use btptester_core.Commands.Gap.{gap_set_conn, gap_set_gendiscov}
use btptester_core.Commands.Gap.Discover.{gap_start_discov, gap_stop_discov}
use btptester_core.Commands.Gap.Advertise.{plain, gap_adv_ind_on}
use btptester_core.Testcases.Futures.{Listening, Told, AllTold, AllPassed, Keeps}
use btptester_core.Testcases.Listens.{listen-Good}
use btptester_core.Testcases.Steps.{>>=-ok, >>-ok, Good, pause-Good, on-Good, find_released-Passed}

-- `f` is the test of the listener with the number `n`.
abbrev pub Made : ℕ → (EvArgs → Result Bool) → Listening
Made n f k g = k ≡ n → g ≡ some f

-- No listener has the number `n` yet or a later one.
abbrev pub Below : ℕ → Listening
Below n k g = k < n

module _ (n : ℕ) (f : EvArgs → Result Bool) where
  module _ (k : ℕ) (earlier : k ≤ n) where
    All-Made : (ls : List BtpEventListener) → All (Told (Below k)) ls → All (Told (Made n f)) ls
    All-Made [] h = tt
    All-Made (l ∷ ls) (h, hs) = ((λ e. absurd (omega arith)), All-Made ls hs)

    AllTold-Made :
        (d : Dict EvKey (List BtpEventListener)) → AllTold (Below k) d → AllTold (Made n f) d
    AllTold-Made [] h = tt
    AllTold-Made ((key, ls) ∷ d) (h, hs) = (All-Made ls h, AllTold-Made d hs)

    AllPassed-Made : (ls : List BtpEventListener) → AllPassed (Below k) ls → AllPassed (Made n f) ls
    AllPassed-Made [] h = tt
    AllPassed-Made (l ∷ ls) ((h, p), hs) = (((λ e. absurd (omega arith)), p), AllPassed-Made ls hs)

    pub Keeps-Made : (h : BtpEventHandler) → Keeps (Below k) h → Keeps (Made n f) h
    Keeps-Made h (t, r) = (AllTold-Made h.listeners t, AllPassed-Made h.released r)

  accepts-test :
      (args : EvArgs) (l : BtpEventListener)
      → l.verify_f ≡ some f
      → accepts args l ≡ ok true
      → f args ≡ ok true
  accepts-test args l e h = ground arith

  -- The value of a future is what its test has accepted.
  pub result-Made :
      (x : Side) (m : ℕ) (b : Bench) (r : Option EvArgs)
      → Good (Made n f) m x b
      → (result (record { side = x; number = n }) b).0 ≡ ok r
      → (args : EvArgs) × (r ≡ some args) × (f args ≡ ok true)
  unfolding result resolved handler_of
  result-Made x m b r g h =
      let there : find_released n (iut x b).released ≡ some r = ground arith in
      let (l, number, told, passed, same) =
        find_released-Passed (Made n f) m n (iut x b).released r g.0.1 there in
      let (args, value, accepted) = passed in
      (args, sym same ∙ value, accepts-test args l (told number) accepted)

-- the end of the search: the wait, the end of the discovery and the result
abbrev searched : Side → Future → Test EvArgs
searched x future = do
  wait_futures (future ∷ [])
  on x gap_stop_discov
  adv ← result future
  assert_is_not_none adv

is_not_none-ok :
    (r : Option EvArgs) (b : Bench) (args : EvArgs)
    → (assert_is_not_none r b).0 ≡ ok args
    → r ≡ some args
unfolding assert_is_not_none
is_not_none-ok none b args h = cc
is_not_none-ok (some a) b args h = cc

searched-Made :
    (n m : ℕ) (f : EvArgs → Result Bool) (x : Side) (b : Bench) (args : EvArgs)
    → Good (Made n f) m x b
    → (searched x (record { side = x; number = n }) b).0 ≡ ok args
    → f args ≡ ok true
unfolding wait_futures result
searched-Made n m f x b args g run =
    let future : Future = record { side = x; number = n } in
    let waited = (pause b).1 in
    let g1 = pause-Good (Made n f) m x b g in
    let run1 = >>-ok (wait_futures (future ∷ [])) b args _ run in
    let run2 = >>-ok (on x gap_stop_discov) waited args _ run1 in
    let stopped = (on x gap_stop_discov waited).1 in
    let g2 = on-Good (Made n f) m x x gap_stop_discov waited g1 in
    let (r, value, rest) = >>=-ok (result future) stopped args assert_is_not_none run2 in
    let (args', is, accepted) = result-Made n f x m stopped r g2 value in
    let found' = is_not_none-ok r (result future stopped).1 args rest in
    let same : some args' ≡ some args = sym is ∙ found' in cc

module _ (uuid : Bytes) (central peripheral : Side) where
  -- If the search for an advertisement comes to its end, whatever frames of whatever kind the two
  -- devices have sent, its result is an advertisement that passes the test for the UUID, as long
  -- as the listeners that the central had before have numbers of their own and those released have
  -- passed their tests, and sets of listeners keep their elements.
  pub discovery-verified :
      (b : Bench) (args : EvArgs)
      → Keeps (Below (iut central b).submitted) (handler_of (iut central b))
      → ((P : Listening) (ls : List BtpEventListener)
          → All (Told P) ls
          → All (Told P) (b.reorder ls))
      → (discovery uuid central peripheral b).0 ≡ ok args
      → verify_uuid uuid args ≡ ok true
  unfolding discovery gap_device_found_ev handler_of
  discovery-verified b args fresh same run =
      let n = (iut central b).submitted in
      let f = verify_uuid uuid in
      let g : Good (Made n f) n central b = (
        Keeps-Made n f n (omega arith) (handler_of (iut central b)) fresh,
        same (Made n f),
        refl,
      ) in
      let run1 = >>-ok (on peripheral gap_set_conn) b args _ run in
      let b1 = (on peripheral gap_set_conn b).1 in
      let g1 = on-Good (Made n f) n central peripheral gap_set_conn b g in
      let run2 = >>-ok (on peripheral gap_set_gendiscov) b1 args _ run1 in
      let b2 = (on peripheral gap_set_gendiscov b1).1 in
      let g2 = on-Good (Made n f) n central peripheral gap_set_gendiscov b1 g1 in
      let advertise =
        gap_adv_ind_on ((uuid16_some, plain uuid) ∷ []) [] forever le_identity_address in
      let run3 = >>-ok (on peripheral advertise) b2 args _ run2 in
      let b3 = (on peripheral advertise b2).1 in
      let g3 = on-Good (Made n f) n central peripheral advertise b2 g2 in
      let start = gap_start_discov "le" "active" "general" in
      let run4 = >>-ok (on central start) b3 args _ run3 in
      let b4 = (on central start b3).1 in
      let g4 = on-Good (Made n f) n central central start b3 g3 in
      let listening = listen central gap_device_found_ev (some f) in
      let (future, made, run5) = >>=-ok listening b4 args (searched central) run4 in
      let (made', g5) =
        listen-Good (Made n f) n (some f) (λ e. refl) btp_service_id_gap Ops.gap_ev_device_found
          gap_device_found_ev (λ k g h. refl) central b4 g4 in
      let same_future : ok future ≡ ok (record { side = central; number = n }) = sym made ∙ made' in
      let known : future ≡ record { side = central; number = n } = cc in
      searched-Made n (suc n) f central (listening b4).1 args g5
        (subst (λ x. (searched central x (listening b4).1).0 ≡ ok args) known run5)
