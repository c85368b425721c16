-- ===== src/Commands/L2cap/Refine.antt =====
-- L2CAP events on their way from the receiving thread to the test case that reads them.
use btptester_core.Prelude.{
  ◌≡◌, ◌∙◌, ap, refl, true, inr, append-nil, append_assoc, sym, Option, none, some, List, [], ◌∷◌,
  ◌++◌, Bytes, if◌then◌else◌,
}
use btptester_core.Dict
use btptester_core.Parser.{Header}
use btptester_core.Stack.{L2cap}
use btptester_core.Worker.{World}
use btptester_core.Worker.Rx.{RxWorker, rx_task, rx_frame, on_event, is_event}
use btptester_core.Events.Handler.{callback}
use btptester_core.Events.Handler.Listeners.{BtpEventListener, BtpEventHandler}
use btptester_core.Events.Handler.Dispatch.{handle_event_unknown}
use btptester_core.Commands.L2cap.{has_channel}
use btptester_core.Commands.L2cap.Channels.{
  Event, connected, disconnected, event_frame, all_frames, handle_events, with_l2cap, open_after,
  open_of, IsDistinct, KeepsDistinct, refines,
}

module _ (reorder : List BtpEventListener → List BtpEventListener) where
  on_event-queued :
      (hdr : Header) (dat : Bytes) (o : Option BtpEventHandler) (rx : RxWorker)
      → callback hdr.svc_id hdr.op ≡ none
      → let next = on_event reorder hdr dat o rx in
        (next.rx_queue ≡ rx.rx_queue ++ (hdr, dat) ∷ []) × (next.alive ≡ rx.alive)
  on_event-queued hdr dat none rx n = (refl, refl)
  on_event-queued hdr dat (some h) rx n =
      rw (handle_event_unknown reorder hdr dat h (inr n)) (refl, refl)

  rx_frame-queued :
      (e : Event) (rx : RxWorker)
      → let next = rx_frame reorder (event_frame e).0 (event_frame e).1 rx in
        (next.rx_queue ≡ rx.rx_queue ++ event_frame e ∷ []) × (next.alive ≡ rx.alive)
  unfolding rx_frame is_event callback Dict.get
  rx_frame-queued (connected c p) rx =
      on_event-queued (event_frame (connected c p)).0 (event_frame (connected c p)).1 rx.handler rx
        refl
  rx_frame-queued (disconnected c r p) rx =
      on_event-queued (event_frame (disconnected c r p)).0 (event_frame (disconnected c r p)).1
        rx.handler rx refl

  -- The receiving thread puts the events of this service on the queue: no table has a handler.
  rx_task-frames :
      (evs : List Event) (rx : RxWorker)
      → rx.alive ≡ true
      → (rx_task reorder (all_frames evs []) rx).rx_queue ≡ rx.rx_queue ++ all_frames evs []
  unfolding rx_task
  rx_task-frames [] rx a = sym (append-nil rx.rx_queue)
  rx_task-frames (e ∷ evs) rx a =
      let (q, k) = rx_frame-queued e rx in
      let next = rx_frame reorder (event_frame e).0 (event_frame e).1 rx in
      ap (λ b. (if b then rx_task reorder (all_frames evs []) next else rx).rx_queue) a
      ∙ rx_task-frames evs next (k ∙ a)
      ∙ ap (λ z. z ++ all_frames evs []) q
      ∙ append_assoc rx.rx_queue (event_frame e ∷ []) (all_frames evs [])

  -- The events that the device sends go through the receiving thread to the queue, whatever the
  -- event handler is, and the test case reads one after another. Where the channels kept at first
  -- are all different, the code refines a set of open channels: it runs to its end exactly if no
  -- event closes a channel that is not open, the channels kept are then those that are open, and
  -- in every case no channel is kept twice.
  pub l2cap_events_refine :
      (evs : List Event) (rx : RxWorker) (l : L2cap) (w : World)
      → rx.alive ≡ true
      → rx.rx_queue ≡ []
      → IsDistinct l.channels
      → let frames = (rx_task reorder (all_frames evs []) rx).rx_queue in
        let run = handle_events evs (with_l2cap l frames w) in
        (open_of run ≡ open_after (has_channel l.channels) evs) × KeepsDistinct run.1
  l2cap_events_refine evs rx l w a e d = rw (rx_task-frames evs rx a, e) (refines evs l [] w d)
