-- ===== src/Testcases/Linked.antt =====
-- What holds after the procedure that connects two devices.
use btptester_core.Prelude.{
  ℕ, suc, ◌≡◌, refl, sym, ◌∙◌, arith, Bool, true, none, some, subst, List, [], ◌∷◌, Bytes, All, ap,
}
use btptester_core.Result.{Result, ok}
use btptester_core.Address.{BleAddress}
use btptester_core.Gap.{LeAdv}
use btptester_core.Exec.{lift, ◌>>=◌, ◌>>◌}
use btptester_core.Events.Args.{EvArgs, found}
use btptester_core.Events.Handler.Listeners.{BtpEventListener}
use btptester_core.Events.Waits.{gap_connected_ev}
use btptester_core.Commands.Gap.Connect.{gap_conn}
use btptester_core.Testcases.Bench.{
  Bench, Side, Test, Future, iut, on, handler_of, iut_addr_get, listen, wait_futures, result,
}
use btptester_core.Testcases.Utils.{verify_uuid, verify_address, first_of}
use btptester_core.Testcases.Procedures.{
  discovery, assert_connected, set_iut_addr, addr_of, connection_procedure, le_identity_address,
}
use btptester_core.Testcases.Futures.{Listening, Told, Keeps}
use btptester_core.Testcases.Steps.{Good, on-Good, Post, >>=-Post, >>-Post}
use btptester_core.Testcases.Listens.{
  listen-Good, listen-either-Good, iut_addr_get-state, set_iut_addr-Good,
}
use btptester_core.Testcases.Heard.{Answered, discovery-Good, set_iut_addr-Answered}
use btptester_core.Testcases.Verdicts.{Below, Made, Keeps-Made, discovery-verified}
use btptester_core.Defs.Core.{btp_service_id_gap}
use btptester_core.Defs.Gap as Ops
use btptester_core.Testcases.Links.{HasLink, BothLinks, asserted, set_both, waited-Answered}

addr_of-found :
    (args : EvArgs) (a : BleAddress)
    → addr_of args ≡ ok a
    → (adv : LeAdv) × (args ≡ found adv) × (adv.addr ≡ a)
addr_of-found (found adv) a h = (adv, refl, cc)
addr_of-found args a h = absurd (ground arith)

abbrev ending : Side → Side → Future → Test (Unit {0})
ending central peripheral future_peripheral = do
  assert_connected true central
  assert_connected true peripheral
  args ← result future_peripheral
  central_addr ← lift (first_of args)
  set_iut_addr central central_addr

ending-Post :
    (central peripheral : Side) (future : Future) (s : Bench)
    → Post (BothLinks true central peripheral) (ending central peripheral future s)
unfolding result
ending-Post central peripheral future s =
    let Q = BothLinks true central peripheral in
    >>-Post Q (assert_connected true central) _ s λ u h.
      >>-Post Q (assert_connected true peripheral) _ _ λ v k.
        >>=-Post Q (result future) _ _ λ args _. >>=-Post Q (lift (first_of args)) _ _ λ a _. λ y e.
          let (here, there, same) = asserted true central peripheral s u v h k in
          set_both true central peripheral central a
            (assert_connected true peripheral (assert_connected true central s).1).1
            (subst Q (sym same) (here, there))

ending-Answered :
    (central peripheral : Side) (future : Future) (s : Bench) (x : Side) (n : ℕ)
    (f : EvArgs → Result Bool)
    → Answered x n f s
    → Post (Answered x n f) (ending central peripheral future s)
unfolding result
ending-Answered central peripheral future s x n f ans =
    let Q = Answered x n f in
    >>-Post Q (assert_connected true central) _ s λ u h.
      >>-Post Q (assert_connected true peripheral) _ _ λ v k.
        >>=-Post Q (result future) _ _ λ args _. >>=-Post Q (lift (first_of args)) _ _ λ a _. λ y e.
          let (here, there, same) = asserted true central peripheral s u v h k in
          set_iut_addr-Answered x n f central a
            (assert_connected true peripheral (assert_connected true central s).1).1
            (subst Q (sym same) ans)

module _ (uuid : Bytes) (central peripheral : Side) where
  connected-Post :
      (b : Bench)
      → Post (BothLinks true central peripheral) (connection_procedure uuid central peripheral b)
  unfolding connection_procedure result
  connected-Post b =
      let Q = BothLinks true central peripheral in
      >>=-Post Q (discovery uuid central peripheral) _ b λ adv _.
        >>=-Post Q (lift (addr_of adv)) _ _ λ addr _.
          >>-Post Q (set_iut_addr peripheral addr) _ _ λ _ _.
            >>=-Post Q (listen central gap_connected_ev (some λ args. verify_address args addr)) _ _
              λ future_central _.
                >>=-Post Q (listen peripheral gap_connected_ev none) _ _ λ future_peripheral _.
                  >>=-Post Q (iut_addr_get peripheral) _ _ λ target _.
                    >>-Post Q (on central (gap_conn target le_identity_address)) _ _ λ _ _.
                      >>-Post Q (wait_futures (future_central ∷ future_peripheral ∷ [])) _ _
                        λ _ _. ending-Post central peripheral future_peripheral _

  -- What the central has heard: the advertisement of the search, and a connection event from the
  -- address of its sender, the value of its second future.
  abbrev pub Heard : Bench → Bench → Type 0
  Heard b b' =
      (adv : LeAdv) × ((discovery uuid central peripheral b).0 ≡ ok (found adv))
      × (verify_uuid uuid (found adv) ≡ ok true)
      × Answered central (suc (iut central b).submitted) (λ args. verify_address args adv.addr) b'

  heard :
      (b b' : Bench) (args : EvArgs) (addr : BleAddress)
      → Keeps (Below (iut central b).submitted) (handler_of (iut central b))
      → ((P : Listening) (ls : List BtpEventListener)
          → All (Told P) ls
          → All (Told P) (b.reorder ls))
      → (discovery uuid central peripheral b).0 ≡ ok args
      → addr_of args ≡ ok addr
      → Answered central (suc (iut central b).submitted) (λ e. verify_address e addr) b'
      → Heard b b'
  heard b b' args addr fresh same seen is ans =
      let (adv, found_adv, of_sender) = addr_of-found args addr is in
      let passed = discovery-verified uuid central peripheral b args fresh same seen in
      (
        adv,
        seen ∙ ap ok found_adv,
        subst (λ x. verify_uuid uuid x ≡ ok true) found_adv passed,
        subst (λ a. Answered central (suc (iut central b).submitted) (λ e. verify_address e a) b')
            (sym of_sender) ans,
      )

  connected-Heard :
      (b : Bench)
      → Keeps (Below (iut central b).submitted) (handler_of (iut central b))
      → ((P : Listening) (ls : List BtpEventListener)
          → All (Told P) ls
          → All (Told P) (b.reorder ls))
      → Post (Heard b) (connection_procedure uuid central peripheral b)
  unfolding connection_procedure gap_connected_ev
  connected-Heard b fresh same =
      let Q = Heard b in
      let n = (iut central b).submitted in
      let b1 = (discovery uuid central peripheral b).1 in
      >>=-Post Q (discovery uuid central peripheral) _ b λ args seen.
        >>=-Post Q (lift (addr_of args)) _ b1 λ addr is.
          let f : EvArgs → Result Bool = λ e. verify_address e addr in
          let P = Made (suc n) f in
          let g : Good P n central b = (
            Keeps-Made (suc n) f n (omega arith) (handler_of (iut central b)) fresh,
            same P,
            refl,
          ) in
          let g1 =
            discovery-Good P n uuid central peripheral (λ e. absurd (omega arith)) b g args seen in
          let b2 = (set_iut_addr peripheral addr b1).1 in
          let g2 = set_iut_addr-Good addr b1 P (suc n) central peripheral g1 in
          let ear = listen central gap_connected_ev (some f) in
          let (mine, g3) =
            listen-Good P (suc n) (some f) (λ e. refl) btp_service_id_gap
              Ops.gap_ev_device_connected gap_connected_ev (λ k g h. refl) central b2 g2 in
          let b3 = (ear b2).1 in
          let (m, g4) =
            listen-either-Good P (suc (suc n)) none (λ e. absurd (omega arith)) btp_service_id_gap
              Ops.gap_ev_device_connected gap_connected_ev (λ k g h. refl) central peripheral b3
              g3 in
          let b4 = (listen peripheral gap_connected_ev none b3).1 in
          let b5 = (iut_addr_get peripheral b4).1 in
          let g5 : Good P m central b5 =
            subst (Good P m central) (sym (iut_addr_get-state peripheral b4)) g4 in
          >>-Post Q (set_iut_addr peripheral addr) _ b1 λ _ _. >>=-Post Q ear _ b2 λ fc made.
            >>=-Post Q (listen peripheral gap_connected_ev none) _ b3 λ fp _.
              >>=-Post Q (iut_addr_get peripheral) _ b4 λ target _.
                let connect = gap_conn target le_identity_address in
                let b6 = (on central connect b5).1 in
                let g6 = on-Good P m central central connect b5 g5 in
                >>-Post Q (on central connect) _ b5 λ _ _.
                  >>-Post Q (wait_futures (fc ∷ fp ∷ [])) _ b6 λ u waited. λ y e.
                    heard b _ args addr fresh same seen is (
                      ending-Answered central peripheral fp (wait_futures (fc ∷ fp ∷ []) b6).1
                        central (suc n) f
                        (waited-Answered central (suc n) f m b6 fc (fp ∷ []) u g6 (sym made ∙ mine)
                          waited)
                        y e)

  -- When `connection_procedure` has come to its end, whatever frames have arrived, its search has
  -- found an advertisement that passes the test for the UUID, the second future of the central
  -- holds an event that names the address of that advertisement's sender, and both devices have a
  -- link; with the conditions of `discovery-verified`.
  pub connection_procedure-connected :
      (b : Bench) (u : Unit {0})
      → Keeps (Below (iut central b).submitted) (handler_of (iut central b))
      → ((P : Listening) (ls : List BtpEventListener)
          → All (Told P) ls
          → All (Told P) (b.reorder ls))
      → (connection_procedure uuid central peripheral b).0 ≡ ok u
      → let b' = (connection_procedure uuid central peripheral b).1 in
        Heard b b' × HasLink true central b' × HasLink true peripheral b'
  connection_procedure-connected b u fresh same run =
      let (here, there) = connected-Post b u run in
      (connected-Heard b fresh same u run, here, there)
