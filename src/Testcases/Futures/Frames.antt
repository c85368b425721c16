-- ===== src/Testcases/Futures/Frames.antt =====
-- What a receiving thread leaves true of the listeners of its device, and of the number of its
-- futures.
use btptester_core.Prelude.{
  ◌≡◌, refl, Bool, true, false, Option-cases, subst, inl, inr, Option, none, some, List, [], ◌∷◌,
  Bytes, All, All-append, if◌then◌else◌,
}
use btptester_core.Result.{Result, ok, err}
use btptester_core.Parser.{Header}
use btptester_core.Stack.{Stack}
use btptester_core.Events.Args.{EvArgs, Handler}
use btptester_core.Events.Handler.{callback}
use btptester_core.Events.Handler.Listeners.{
  BtpEventListener, BtpEventHandler, EvKey, ev_key_eq, listeners_of, passed, kept, notify, finish,
  run_callback, handle_event,
}
use btptester_core.Worker.Rx.{
  RxWorker, is_event, enqueue, after_handler, on_event, rx_frame, rx_task,
}
use btptester_core.Worker.Rx.Queue.{Frame}
use btptester_core.Testcases.Bench.{Iut, receive, handler_of, with_handler, loaded, absorb}
use btptester_core.Testcases.Futures.{
  Listening, Told, Passed, Keeps, Kept-cases, put-AllTold, listeners_of-AllTold, passed-AllPassed,
  AllToldOk, kept-AllToldOk,
}

module _ (P : Listening) (reorder : List BtpEventListener → List BtpEventListener)
    (same : (ls : List BtpEventListener) → All (Told P) ls → All (Told P) (reorder ls)) where
  notify-Keeps :
      (k : EvKey) (args : EvArgs) (h : BtpEventHandler)
      → Keeps P h
      → Keeps P (notify reorder k args h).1
  unfolding notify
  notify-Keeps k args h (t, p) =
      let told = listeners_of-AllTold P h k t in
      let released =
        All-append (λ l. Told P l × Passed l) h.released (passed args (listeners_of h k)) p
          (passed-AllPassed P args (listeners_of h k) told) in
      elim (Kept-cases (kept args (listeners_of h k))) [
        | inl (e, x) ↦ rw (x, notify) (t, released)
        | inr (ls, y) ↦
            rw (y, notify)
              (
                put-AllTold P h.listeners k (reorder ls) t (
                    same ls
                      (subst (AllToldOk P) y (kept-AllToldOk P args (listeners_of h k) told))),
                released,
              )
      ]

  finish-Keeps :
      (k : EvKey) (r : Result EvArgs × Stack) (h : BtpEventHandler)
      → Keeps P h
      → Keeps P (finish reorder k r h).1
  unfolding finish
  finish-Keeps k (ok args, s) h t = notify-Keeps k args (record h { stack = some s }) t
  finish-Keeps k (err e, s) h t = t

  run_callback-Keeps :
      (o : Option (Bytes → Handler)) (hdr : Header) (dat : Bytes) (s : Stack) (h : BtpEventHandler)
      → Keeps P h
      → Keeps P (run_callback reorder o hdr dat s h).1
  unfolding run_callback
  run_callback-Keeps none hdr dat s h t = t
  run_callback-Keeps (some cb) hdr dat s h t = finish-Keeps (hdr.svc_id, hdr.op) (cb dat s) h t

  handle_event-Keeps :
      (hdr : Header) (dat : Bytes) (h : BtpEventHandler)
      → Keeps P h
      → Keeps P (handle_event reorder hdr dat h).1
  unfolding handle_event
  handle_event-Keeps hdr dat h t = elim (Option-cases h.stack) [
    | inl n ↦ rw (n, handle_event) t
    | inr (s, y) ↦
        rw (y, handle_event) (run_callback-Keeps (callback hdr.svc_id hdr.op) hdr dat s h t)
  ]

  abbrev KeepsIf : Option BtpEventHandler → Type 0
  KeepsIf none = Unit
  KeepsIf (some h) = Keeps P h

  abbrev KeepsAt : RxWorker → Type 0
  KeepsAt w = KeepsIf w.handler

  after_handler-Keeps :
      (hdr : Header) (dat : Bytes) (r : Result Bool × BtpEventHandler) (w : RxWorker)
      → Keeps P r.1
      → KeepsAt (after_handler reorder hdr dat r w)
  after_handler-Keeps hdr dat (ok true, h) w t = t
  after_handler-Keeps hdr dat (ok false, h) w t = t
  after_handler-Keeps hdr dat (err e, h) w t = t

  on_event-Keeps :
      (hdr : Header) (dat : Bytes) (o : Option BtpEventHandler) (w : RxWorker)
      → KeepsAt w
      → KeepsIf o
      → KeepsAt (on_event reorder hdr dat o w)
  on_event-Keeps hdr dat none w t u = t
  on_event-Keeps hdr dat (some h) w t u =
      after_handler-Keeps hdr dat (handle_event reorder hdr dat h) w
        (handle_event-Keeps hdr dat h u)

  either-Keeps : (b : Bool) (v w : RxWorker) → KeepsAt v → KeepsAt w → KeepsAt (if b then v else w)
  either-Keeps true v w t u = t
  either-Keeps false v w t u = u

  rx_frame-Keeps :
      (hdr : Header) (dat : Bytes) (w : RxWorker) → KeepsAt w → KeepsAt (rx_frame reorder hdr dat w)
  unfolding rx_frame
  rx_frame-Keeps hdr dat w t =
      either-Keeps (is_event hdr) (on_event reorder hdr dat w.handler w) (enqueue hdr dat w)
        (on_event-Keeps hdr dat w.handler w t t) t

  rx_task-Keeps :
      (frames : List Frame) (w : RxWorker) → KeepsAt w → KeepsAt (rx_task reorder frames w)
  unfolding rx_task
  rx_task-Keeps [] w t = t
  rx_task-Keeps ((hdr, dat) ∷ frames) w t =
      either-Keeps w.alive (rx_task reorder frames (rx_frame reorder hdr dat w)) w
        (rx_task-Keeps frames (rx_frame reorder hdr dat w) (rx_frame-Keeps hdr dat w t)) t

  absorb-Keeps :
      (i : Iut) (w : RxWorker) (o : Option BtpEventHandler)
      → Keeps P (handler_of i)
      → KeepsIf o
      → Keeps P (handler_of (absorb w i o))
  unfolding handler_of with_handler
  absorb-Keeps i w none t u = t
  absorb-Keeps i w (some h) t u = u

  -- Whatever frames arrive at a device, its listeners stay what they were when they were made,
  -- and those that are released have passed their tests.
  pub receive-Keeps :
      (frames : List Frame) (i : Iut)
      → Keeps P (handler_of i)
      → Keeps P (handler_of (receive reorder frames i))
  unfolding receive
  receive-Keeps frames i t =
      let w = rx_task reorder frames (loaded i) in
      absorb-Keeps i w w.handler t (rx_task-Keeps frames (loaded i) t)

absorb-submitted :
    (w : RxWorker) (i : Iut) (o : Option BtpEventHandler) → (absorb w i o).submitted ≡ i.submitted
unfolding with_handler
absorb-submitted w i none = refl
absorb-submitted w i (some h) = refl

-- No future is made while frames arrive.
pub submitted-receive :
    (reorder : List BtpEventListener → List BtpEventListener) (frames : List Frame) (i : Iut)
    → (receive reorder frames i).submitted ≡ i.submitted
unfolding receive
submitted-receive reorder frames i =
    let w = rx_task reorder frames (loaded i) in absorb-submitted w i w.handler
