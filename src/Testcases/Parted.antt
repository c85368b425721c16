-- ===== src/Testcases/Parted.antt =====
-- What holds after the procedure that disconnects two devices.
use btptester_core.Prelude.{
  ℕ, suc, ◌≡◌, refl, sym, ◌∙◌, arith, Bool, false, none, some, subst, List, [], ◌∷◌, All,
}
use btptester_core.Result.{Result, ok}
use btptester_core.Address.{BleAddress}
use btptester_core.Exec.{◌>>◌}
use btptester_core.Events.Args.{EvArgs}
use btptester_core.Events.Handler.Listeners.{BtpEventListener}
use btptester_core.Events.Waits.{gap_disconnected_ev}
use btptester_core.Commands.Gap.Connect.{gap_disconn}
use btptester_core.Testcases.Bench.{
  Bench, Side, iut, on, handler_of, iut_addr_get, listen, wait_futures,
}
use btptester_core.Testcases.Utils.{verify_address}
use btptester_core.Testcases.Procedures.{assert_connected, disconnection_procedure}
use btptester_core.Testcases.Futures.{Listening, Told, Keeps}
use btptester_core.Testcases.Steps.{Good, on-Good, Post, >>=-Post, >>-Post}
use btptester_core.Testcases.Listens.{listen-Good, listen-either-Good, iut_addr_get-state}
use btptester_core.Testcases.Heard.{Answered}
use btptester_core.Testcases.Verdicts.{Below, Made, Keeps-Made}
use btptester_core.Defs.Core.{btp_service_id_gap}
use btptester_core.Defs.Gap as Ops
use btptester_core.Testcases.Links.{HasLink, BothLinks, asserted, waited-Answered}

disconnected-Post :
    (central peripheral : Side) (b : Bench)
    → Post (BothLinks false peripheral central) (disconnection_procedure central peripheral b)
unfolding disconnection_procedure
disconnected-Post central peripheral b =
    let Q = BothLinks false peripheral central in
    >>=-Post Q (iut_addr_get peripheral) _ b λ periph_addr _.
      >>=-Post Q (listen central gap_disconnected_ev (some λ args. verify_address args periph_addr))
        _ _
        λ future_central _.
          >>=-Post Q (listen peripheral gap_disconnected_ev none) _ _ λ future_peripheral _.
            >>=-Post Q (iut_addr_get peripheral) _ _ λ target _.
              >>-Post Q (on central (gap_disconn target)) _ _ λ _ _.
                >>-Post Q (wait_futures (future_central ∷ future_peripheral ∷ [])) _ _ λ _ _.
                  >>-Post Q (assert_connected false peripheral) _ _ λ u h. λ v k.
                    let (here, there, same) = asserted false peripheral central _ u v h k in
                    subst Q (sym same) (here, there)

parted-Answered :
    (central peripheral : Side) (s : Bench) (x : Side) (n : ℕ) (f : EvArgs → Result Bool)
    → Answered x n f s
    → Post
        (Answered x n f)
        ((assert_connected false peripheral >> assert_connected false central) s)
parted-Answered central peripheral s x n f ans =
    let Q = Answered x n f in
    >>-Post Q (assert_connected false peripheral) _ s λ u h. λ v k.
      let (here, there, same) = asserted false peripheral central s u v h k in
      subst Q (sym same) ans

module _ (central peripheral : Side) where
  -- What the central has heard: a disconnection event from the address that the peripheral had
  -- when the procedure began, the value of its next future.
  abbrev pub HeardOff : Bench → Bench → Type 0
  HeardOff b b' =
      (addr : BleAddress) × ((iut_addr_get peripheral b).0 ≡ ok addr)
      × Answered central (iut central b).submitted (λ args. verify_address args addr) b'

  disconnected-HeardOff :
      (b : Bench)
      → Keeps (Below (iut central b).submitted) (handler_of (iut central b))
      → ((P : Listening) (ls : List BtpEventListener)
          → All (Told P) ls
          → All (Told P) (b.reorder ls))
      → Post (HeardOff b) (disconnection_procedure central peripheral b)
  unfolding disconnection_procedure gap_disconnected_ev
  disconnected-HeardOff b fresh same =
      let Q = HeardOff b in
      let n = (iut central b).submitted in
      let b1 = (iut_addr_get peripheral b).1 in
      >>=-Post Q (iut_addr_get peripheral) _ b λ addr seen.
        let f : EvArgs → Result Bool = λ e. verify_address e addr in
        let P = Made n f in
        let g : Good P n central b =
          (Keeps-Made n f n (omega arith) (handler_of (iut central b)) fresh, same P, refl) in
        let g1 : Good P n central b1 =
          subst (Good P n central) (sym (iut_addr_get-state peripheral b)) g in
        let ear = listen central gap_disconnected_ev (some f) in
        let (mine, g2) =
          listen-Good P n (some f) (λ e. refl) btp_service_id_gap Ops.gap_ev_device_disconnected
            gap_disconnected_ev (λ k g h. refl) central b1 g1 in
        let b2 = (ear b1).1 in
        let (m, g3) =
          listen-either-Good P (suc n) none (λ e. absurd (omega arith)) btp_service_id_gap
            Ops.gap_ev_device_disconnected gap_disconnected_ev (λ k g h. refl) central peripheral b2
            g2 in
        let b3 = (listen peripheral gap_disconnected_ev none b2).1 in
        let b4 = (iut_addr_get peripheral b3).1 in
        let g4 : Good P m central b4 =
          subst (Good P m central) (sym (iut_addr_get-state peripheral b3)) g3 in
        >>=-Post Q ear _ b1 λ fc made.
          >>=-Post Q (listen peripheral gap_disconnected_ev none) _ b2 λ fp _.
            >>=-Post Q (iut_addr_get peripheral) _ b3 λ target _.
              let b5 = (on central (gap_disconn target) b4).1 in
              let g5 = on-Good P m central central (gap_disconn target) b4 g4 in
              >>-Post Q (on central (gap_disconn target)) _ b4 λ _ _.
                >>-Post Q (wait_futures (fc ∷ fp ∷ [])) _ b5 λ u waited. λ y e. (
                  addr,
                  seen,
                  parted-Answered central peripheral (wait_futures (fc ∷ fp ∷ []) b5).1 central n f
                      (waited-Answered central n f m b5 fc (fp ∷ []) u g5 (sym made ∙ mine) waited)
                      y e,
                )

  -- When `disconnection_procedure` has come to its end, whatever frames have arrived, the next
  -- future of the central holds an event that names the address that the peripheral had at the
  -- beginning, and neither device has a link; with the conditions of `discovery-verified` on the
  -- listeners.
  pub disconnection_procedure-disconnected :
      (b : Bench) (u : Unit {0})
      → Keeps (Below (iut central b).submitted) (handler_of (iut central b))
      → ((P : Listening) (ls : List BtpEventListener)
          → All (Told P) ls
          → All (Told P) (b.reorder ls))
      → (disconnection_procedure central peripheral b).0 ≡ ok u
      → let b' = (disconnection_procedure central peripheral b).1 in
        HeardOff b b' × HasLink false peripheral b' × HasLink false central b'
  disconnection_procedure-disconnected b u fresh same run =
      let (here, there) = disconnected-Post central peripheral b u run in
      (disconnected-HeardOff b fresh same u run, here, there)
