-- ===== src/Testcases/Heard.antt =====
-- What the futures of the procedures hold when the procedures have come to their ends.
use btptester_core.Prelude.{
  ℕ, suc, ◌≡◌, refl, ◌∙◌, ap, arith, Bool, true, some, none, Option-cases, inl, inr, List, [], ◌∷◌,
  Bytes, Option,
}
use btptester_core.Result.{Result, ok, err, timeout_error}
use btptester_core.Address.{BleAddress}
use btptester_core.Events.Args.{EvArgs}
use btptester_core.Events.Waits.{gap_device_found_ev}
use btptester_core.Defs.Core.{btp_service_id_gap}
use btptester_core.Defs.Gap as Ops
use btptester_core.Ad.{uuid16_some}
use btptester_core.Commands.Gap.{gap_set_conn, gap_set_gendiscov}
use btptester_core.Commands.Gap.Discover.{gap_start_discov, gap_stop_discov}
use btptester_core.Commands.Gap.Advertise.{plain, gap_adv_ind_on}
use btptester_core.Testcases.Bench.{
  Bench, Side, Future, on, pause, listen, resolved, find_released, assert_is_not_none, all_done,
  wait_futures, result,
}
use btptester_core.Testcases.Utils.{verify_uuid}
use btptester_core.Testcases.Procedures.{discovery, set_iut_addr, forever, le_identity_address}
use btptester_core.Testcases.Futures.{Listening}
use btptester_core.Testcases.Steps.{Good, Post, >>=-Post, >>-Post, pause-Good, on-Good}
use btptester_core.Testcases.Listens.{listen-Good, set_iut_addr-released}
use btptester_core.Testcases.Verdicts.{Made, result-Made}

-- The future with the number `n` of a device has a value, which passes the test `f`.
abbrev pub Answered : Side → ℕ → (EvArgs → Result Bool) → Bench → Type 0
Answered x n f b =
    (args : EvArgs) × ((result (record { side = x; number = n }) b).0 ≡ ok (some args))
    × (f args ≡ ok true)

module _ (x : Side) (n : ℕ) (f : EvArgs → Result Bool) where
  abbrev the_future : Future
  the_future = record { side = x; number = n }

  abbrev value_of : Option (Option EvArgs) → Result (Option EvArgs)
  value_of none = err timeout_error
  value_of (some r) = ok r

  -- a future that is done has a value, and a value that is not None has passed
  done-Answered :
      (m : ℕ) (b : Bench) (others : List Future)
      → Good (Made n f) m x b
      → all_done b (the_future ∷ others) ≡ true
      → Answered x n f b
  unfolding all_done result
  done-Answered m b others g h = elim (Option-cases (resolved b the_future)) [
    | inl none_there ↦ absurd (ground arith)
    | inr (r, there) ↦
        let value : (result the_future b).0 ≡ ok r = ground arith in
        let (args, is, accepted) = result-Made n f x m b r g value in
        (args, value ∙ ap ok is, accepted)
  ]

  pub wait_futures-Answered :
      (m : ℕ) (b : Bench) (others : List Future) (u : Unit {0})
      → Good (Made n f) m x b
      → (wait_futures (the_future ∷ others) b).0 ≡ ok u
      → Answered x n f (wait_futures (the_future ∷ others) b).1
  unfolding wait_futures
  wait_futures-Answered m b others u g h =
      let b' = (pause b).1 in
      done-Answered m b' others (pause-Good (Made n f) m x b g) (ground arith)

  pub set_iut_addr-Answered :
      (y : Side) (a : BleAddress) (b : Bench)
      → Answered x n f b
      → Answered x n f (set_iut_addr y a b).1
  unfolding result resolved
  set_iut_addr-Answered y a b (args, value, accepted) =
      let same = set_iut_addr-released a b x y in
      (args, ap (λ ls. value_of (find_released n ls)) same ∙ value, accepted)

-- A search leaves the listeners of the central as they are, but for its own, and its next future is
-- the one behind.
module _ (P : Listening) (n : ℕ) (uuid : Bytes) (central peripheral : Side)
    (p : P n (some (verify_uuid uuid))) where
  pub discovery-Good :
      (b : Bench)
      → Good P n central b
      → Post (Good P (suc n) central) (discovery uuid central peripheral b)
  unfolding discovery gap_device_found_ev wait_futures result assert_is_not_none
  discovery-Good b g =
      let Q = Good P (suc n) central in
      let b1 = (on peripheral gap_set_conn b).1 in
      let g1 = on-Good P n central peripheral gap_set_conn b g in
      let b2 = (on peripheral gap_set_gendiscov b1).1 in
      let g2 = on-Good P n central peripheral gap_set_gendiscov b1 g1 in
      let advertise =
        gap_adv_ind_on ((uuid16_some, plain uuid) ∷ []) [] forever le_identity_address in
      let b3 = (on peripheral advertise b2).1 in
      let g3 = on-Good P n central peripheral advertise b2 g2 in
      let start = gap_start_discov "le" "active" "general" in
      let b4 = (on central start b3).1 in
      let g4 = on-Good P n central central start b3 g3 in
      let b5 = (listen central gap_device_found_ev (some (verify_uuid uuid)) b4).1 in
      let g5 =
        (listen-Good P n (some (verify_uuid uuid)) p btp_service_id_gap Ops.gap_ev_device_found
          gap_device_found_ev (λ k g h. refl) central b4 g4).1 in
      let b6 = (pause b5).1 in
      let g6 = pause-Good P (suc n) central b5 g5 in
      >>-Post Q (on peripheral gap_set_conn) _ b λ _ _.
        >>-Post Q (on peripheral gap_set_gendiscov) _ b1 λ _ _.
          >>-Post Q (on peripheral advertise) _ b2 λ _ _. >>-Post Q (on central start) _ b3 λ _ _.
            >>=-Post Q (listen central gap_device_found_ev (some (verify_uuid uuid))) _ b4
              λ future _. >>-Post Q (wait_futures (future ∷ [])) _ b5 λ _ _.
                >>-Post Q (on central gap_stop_discov) _ b6 λ _ _.
                  >>=-Post Q (result future) _ (on central gap_stop_discov b6).1
                    λ adv _. λ args _. on-Good P (suc n) central central gap_stop_discov b6 g6
