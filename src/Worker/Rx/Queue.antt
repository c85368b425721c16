-- ===== src/Worker/Rx/Queue.antt =====
-- Theorems on what `_rx_task` does with the frames that arrive.
use btptester_core.Prelude.{
  if◌then◌else◌, ◌≡◌, refl, List, [], ◌∷◌, ◌++◌, Bytes, arith, some, true, false, append-nil,
  append_assoc, ◌∙◌, sym, ap,
}
use btptester_core.Result.{err, Exc}
use btptester_core.Parser.{Header}
use btptester_core.Events.Handler.Listeners.{BtpEventListener, BtpEventHandler, handle_event}
use btptester_core.Worker.Rx.{RxWorker, is_event, rx_frame, rx_task}

abbrev pub Frame : Type 0
Frame = Header × Bytes

-- the frames that are responses, in order
abbrev pub responses : List Frame → List Frame
responses [] = []
responses ((hdr, dat) ∷ l) = if is_event hdr then responses l else (hdr, dat) ∷ responses l

responses-append : (k l : List Frame) → responses (k ++ l) ≡ responses k ++ responses l
responses-append [] l = refl
responses-append ((hdr, dat) ∷ k) l = ground (arith, responses-append k l)

module _ (reorder : List BtpEventListener → List BtpEventListener) where
  responses-rx_frame :
      (hdr : Header) (dat : Bytes) (w : RxWorker)
      → responses (rx_frame reorder hdr dat w).rx_queue
        ≡ responses w.rx_queue ++ responses ((hdr, dat) ∷ [])
  unfolding rx_frame
  responses-rx_frame hdr dat w =
      ground
        (arith, responses-append w.rx_queue ((hdr, dat) ∷ []), append-nil (responses w.rx_queue))

  -- As long as the receiving thread is alive at the end, the responses on its queue are those that
  -- were there before and then all that arrived, in their order: none is lost, repeated or
  -- overtaken, whatever events stand between them and whatever the handler does.
  pub responses-rx_task :
      (frames : List Frame) (w : RxWorker)
      → (rx_task reorder frames w).alive ≡ true
      → responses (rx_task reorder frames w).rx_queue ≡ responses w.rx_queue ++ responses frames
  unfolding rx_task
  responses-rx_task [] w h = sym (append-nil (responses w.rx_queue))
  responses-rx_task ((hdr, dat) ∷ frames) w h = ground (
    arith,
    responses-rx_task frames (rx_frame reorder hdr dat w),
    responses-rx_frame hdr dat w,
    append_assoc (responses w.rx_queue) (responses ((hdr, dat) ∷ [])) (responses frames),
  )

  pub rx_task-dead : (l : List Frame) (w : RxWorker) → w.alive ≡ false → rx_task reorder l w ≡ w
  unfolding rx_task
  rx_task-dead [] w h = refl
  rx_task-dead ((hdr, dat) ∷ l) w h = rw h refl

  rx_frame-dies :
      (hdr : Header) (dat : Bytes) (w : RxWorker) (h : BtpEventHandler) (e : Exc)
      → w.handler ≡ some h
      → is_event hdr ≡ true
      → (handle_event reorder hdr dat h).0 ≡ err e
      → ((rx_frame reorder hdr dat w).alive ≡ false)
        × ((rx_frame reorder hdr dat w).rx_queue ≡ w.rx_queue)
  unfolding rx_frame
  rx_frame-dies hdr dat w h e k v r = ground (arith, k, v, r)

  -- What the handler has done before it raised stays.
  pub rx_frame-raises :
      (hdr : Header) (dat : Bytes) (w : RxWorker) (h h' : BtpEventHandler) (e : Exc)
      → w.handler ≡ some h
      → is_event hdr ≡ true
      → handle_event reorder hdr dat h ≡ (err e, h')
      → rx_frame reorder hdr dat w ≡ record w { handler = some h'; alive = false }
  unfolding rx_frame
  rx_frame-raises hdr dat w h h' e k v r = ground (arith, k, v, r)

  pub rx_task-step :
      (hdr : Header) (dat : Bytes) (later : List Frame) (w : RxWorker)
      → w.alive ≡ true
      → rx_task reorder ((hdr, dat) ∷ later) w ≡ rx_task reorder later (rx_frame reorder hdr dat w)
  unfolding rx_task
  rx_task-step hdr dat later w a = rw a refl

  -- A handler that raises ends the receiving thread: the frames behind that event are not read.
  pub rx_task_dies :
      (hdr : Header) (dat : Bytes) (later : List Frame) (w : RxWorker) (h : BtpEventHandler)
      (e : Exc)
      → w.alive ≡ true
      → w.handler ≡ some h
      → is_event hdr ≡ true
      → (handle_event reorder hdr dat h).0 ≡ err e
      → ((rx_task reorder ((hdr, dat) ∷ later) w).alive ≡ false)
        × ((rx_task reorder ((hdr, dat) ∷ later) w).rx_queue ≡ w.rx_queue)
  rx_task_dies hdr dat later w h e a k v r =
      let (dead, queue) = rx_frame-dies hdr dat w h e k v r in
      let same =
        rx_task-step hdr dat later w a ∙ rx_task-dead later (rx_frame reorder hdr dat w) dead in
      (ap (λ x. x.alive) same ∙ dead, ap (λ x. x.rx_queue) same ∙ queue)
