-- ===== src/Testcases/Listens.antt =====
-- What making a future, and setting the address of a device, do to the listeners of a device.
use btptester_core.Prelude.{
  ℕ, suc, ◌≡◌, refl, sym, ap, subst, Bool, none, some, Option, List, [], ◌∷◌, ◌++◌, All-append,
}
use btptester_core.Result.{Result, ok, err, attribute_error}
use btptester_core.Address.{BleAddress}
use btptester_core.Events.Args.{EvArgs}
use btptester_core.Events.Handler.Listeners.{
  BtpEventListener, BtpEventHandler, listener, listeners_of, wait_for_event,
}
use btptester_core.Testcases.Bench.{
  Bench, Iut, Side, iut1, iut2, Wait, enlist, iut, put_iut, handler_of, with_handler, pause, listen,
  Test, modify_stack, iut_addr_get,
}
use btptester_core.Exec.{of_option, lift, ◌>>=◌}
use btptester_core.Gap.{Gap, unset, address, iut_addr_set}
use btptester_core.Testcases.Procedures.{set_iut_addr}
use btptester_core.Testcases.Futures.{Listening, Told, Keeps, put-AllTold, listeners_of-AllTold}
use btptester_core.Testcases.Steps.{Good, GoodIut, pause-Good, put_iut-Good}

-- A new listener with the number `n` and the test `vf`, for which `P` holds.
module _ (P : Listening) (n : ℕ) (vf : Option (EvArgs → Result Bool)) (p : P n vf) where
  wait_for_event-Keeps :
      (svc_id op : ℕ) (h : BtpEventHandler) → Keeps P h → Keeps P (wait_for_event n vf svc_id op h)
  unfolding wait_for_event
  wait_for_event-Keeps svc_id op h (t, r) = (
    put-AllTold P h.listeners (svc_id, op) (listeners_of h (svc_id, op) ++ listener n vf ∷ []) t
        (All-append (Told P) (listeners_of h (svc_id, op)) (listener n vf ∷ [])
          (listeners_of-AllTold P h (svc_id, op) t) (p, tt)),
    r,
  )

  module _ (svc_id op : ℕ) (wait : Wait)
      (waits : (k : ℕ) (g : Option (EvArgs → Result Bool)) (h : BtpEventHandler)
        → wait k g h ≡ wait_for_event k g svc_id op h) where
    wait-Keeps : (k : ℕ) (h : BtpEventHandler) → k ≡ n → Keeps P h → Keeps P (wait k vf h)
    wait-Keeps k h e t =
        subst (λ j. Keeps P (wait j vf h)) (sym e)
          (subst (Keeps P) (sym (waits n vf h)) (wait_for_event-Keeps svc_id op h t))

    enlist-GoodIut :
        (reorder : List BtpEventListener → List BtpEventListener) (i : Iut)
        → GoodIut P n reorder i
        → GoodIut P (suc n) reorder (enlist wait vf i)
    unfolding enlist with_handler handler_of
    enlist-GoodIut reorder i (k, same, e) =
        (wait-Keeps i.submitted (handler_of i) e k, same, ap suc e)

    pub listen-Good :
        (x : Side) (b : Bench)
        → Good P n x b
        → let (r, b') = listen x wait vf b in
          (r ≡ ok (record { side = x; number = n })) × Good P (suc n) x b'
    unfolding listen
    listen-Good x b g =
        let b' = (pause b).1 in
        let g' = pause-Good P n x b g in
        (
          ap (λ k. ok (record { side = x; number = k })) g'.2,
          put_iut-Good P (suc n) x b' (enlist wait vf (iut x b'))
              (enlist-GoodIut b'.reorder (iut x b') g'),
        )

    -- the same for a future of either device
    pub listen-either-Good :
        (x y : Side) (b : Bench) → Good P n x b → (m : ℕ) × Good P m x (listen y wait vf b).1
    unfolding listen iut put_iut
    listen-either-Good iut1 iut1 b g = (suc n, (listen-Good iut1 b g).1)
    listen-either-Good iut1 iut2 b g = (n, pause-Good P n iut1 b g)
    listen-either-Good iut2 iut1 b g = (n, pause-Good P n iut2 b g)
    listen-either-Good iut2 iut2 b g = (suc n, (listen-Good iut2 b g).1)

-- `set_iut_addr` once the GAP part has been read
abbrev set_in : Side → BleAddress → Option Gap → Test (Unit {0})
set_in y a o = do g ← of_option o; modify_stack y (λ s. record s { gap = some (iut_addr_set g a) })

-- The address of a device has nothing to do with its listeners.
module _ (a : BleAddress) (b : Bench) where
  set_in-released :
      (x y : Side) (o : Option Gap) → (iut x (set_in y a o b).1).released ≡ (iut x b).released
  unfolding iut put_iut
  set_in-released x y none = refl
  set_in-released iut1 iut1 (some g) = refl
  set_in-released iut1 iut2 (some g) = refl
  set_in-released iut2 iut1 (some g) = refl
  set_in-released iut2 iut2 (some g) = refl

  pub set_iut_addr-released :
      (x y : Side) → (iut x (set_iut_addr y a b).1).released ≡ (iut x b).released
  set_iut_addr-released x y = set_in-released x y (iut y b).world.stack.gap

  module _ (P : Listening) (n : ℕ) where
    set_in-Good : (x y : Side) (o : Option Gap) → Good P n x b → Good P n x (set_in y a o b).1
    unfolding iut put_iut handler_of
    set_in-Good x y none good = good
    set_in-Good iut1 iut1 (some g) good = good
    set_in-Good iut1 iut2 (some g) good = good
    set_in-Good iut2 iut1 (some g) good = good
    set_in-Good iut2 iut2 (some g) good = good

    pub set_iut_addr-Good : (x y : Side) → Good P n x b → Good P n x (set_iut_addr y a b).1
    set_iut_addr-Good x y = set_in-Good x y (iut y b).world.stack.gap

-- the address of a device, once its GAP part has been read
abbrev get_in : Option Gap → Test BleAddress
get_in o = do
  g ← of_option o
  lift (elim g.iut_bd_addr [ unset ↦ err attribute_error | address a ↦ ok a ])

get_in-state : (o : Option Gap) (b : Bench) → (get_in o b).1 ≡ b
get_in-state none b = refl
get_in-state (some g) b = refl

pub iut_addr_get-state : (x : Side) (b : Bench) → (iut_addr_get x b).1 ≡ b
unfolding iut_addr_get
iut_addr_get-state x b = get_in-state (iut x b).world.stack.gap b
