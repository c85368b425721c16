-- ===== src/Worker/Rx.antt =====
-- `_rx_task` of `BTPWorker`: what becomes of the frames that the socket delivers.
pub mod Queue
use btptester_core.Prelude.{
  ℕ, Bool, true, false, not, ◌&&◌, Option, none, some, List, [], ◌∷◌, ◌++◌, Bytes, leb, ◌==◌,
  if◌then◌else◌,
}
use btptester_core.Result.{Result, ok, err}
use btptester_core.Parser.{Header}
use btptester_core.Defs.Core.{btp_service_id_core}
use btptester_core.Events.Handler.Listeners.{BtpEventHandler, BtpEventListener, handle_event}

-- `handler` is none until `register_event_handler`. `alive` is the thread: an exception other
-- than the socket's timeout ends it.
pub record RxWorker : Type 0 where
  pub rx_queue : List (Header × Bytes)
  pub handler : Option BtpEventHandler
  pub alive : Bool

-- hdr.svc_id != BTP_SERVICE_ID_CORE and hdr.op >= 0x80
unfoldable pub is_event : Header → Bool
is_event hdr = not (hdr.svc_id == btp_service_id_core) && leb 0x80 hdr.op

abbrev pub enqueue : Header → Bytes → RxWorker → RxWorker
enqueue hdr dat w = record w { rx_queue = w.rx_queue ++ (hdr, dat) ∷ [] }

abbrev pub register_event_handler : BtpEventHandler → RxWorker → RxWorker
register_event_handler h w = record w { handler = some h }

module _ (reorder : List BtpEventListener → List BtpEventListener) where
  -- the frame is not put on the queue if the handler has returned True
  abbrev pub after_handler : Header → Bytes → Result Bool × BtpEventHandler → RxWorker → RxWorker
  after_handler hdr dat (ok true, h) w = record w { handler = some h }
  after_handler hdr dat (ok false, h) w = enqueue hdr dat (record w { handler = some h })
  after_handler hdr dat (err e, h) w = record w { handler = some h; alive = false }

  abbrev pub on_event : Header → Bytes → Option BtpEventHandler → RxWorker → RxWorker
  on_event hdr dat none w = enqueue hdr dat w
  on_event hdr dat (some h) w = after_handler hdr dat (handle_event reorder hdr dat h) w

  -- one round of the loop that has read a frame
  unfoldable pub rx_frame : Header → Bytes → RxWorker → RxWorker
  unfolding is_event
  rx_frame hdr dat w = if is_event hdr then on_event hdr dat w.handler w else enqueue hdr dat w

  -- the frames that arrive, as long as the thread lives
  unfoldable pub rx_task : List (Header × Bytes) → RxWorker → RxWorker
  rx_task [] w = w
  rx_task ((hdr, dat) ∷ later) w =
      let w' = rx_task later (rx_frame hdr dat w) in if w.alive then w' else w
