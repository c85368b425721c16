-- ===== src/Testcases/Unheard.antt =====
-- What becomes of a device whose listener's test raises.
use btptester_core.Prelude.{
  ℕ, ◌<◌, ◌%◌, ◌≡◌, refl, sym, ap, ◌∙◌, true, false, some, List, [], append-nil, ◌∷◌, ◌++◌, Bytes,
  All, length, Bool,
}
use btptester_core.Result.{Exc, ok, err, value_error, Result}
use btptester_core.Parser.{Header}
use btptester_core.Dict
use btptester_core.Dict.{nat_eq}
use btptester_core.Defs.Core.{btp_service_id_gap}
use btptester_core.Defs.Gap as Ops
use btptester_core.Address.{ble_from_wire}
use btptester_core.Ad.{Record}
use btptester_core.Ad.RoundTrip.{enc_ad}
use btptester_core.Gap.{Gap, LeAdv}
use btptester_core.Events.Args.{EvArgs, found}
use btptester_core.Events.Gap.{gap_device_found_ev_}
use btptester_core.Events.Gap.Found.{six, found_payload, gap_device_found_ev-found_payload}
use btptester_core.Events.Handler.{callback}
use btptester_core.Events.Handler.Listeners.{
  BtpEventListener, BtpEventHandler, listener, listeners_of, handle_event, run_callback, finish,
  ev_key_eq,
}
use btptester_core.Events.Handler.Dispatch.{notify-raises, handle_event-run}
use btptester_core.Worker.Rx.{is_event, rx_task}
use btptester_core.Worker.Rx.Queue.{Frame, rx_task-dead, rx_task-step, rx_frame-raises}
use btptester_core.Testcases.Bench.{Iut, loaded, unloaded, receive, handler_of, with_handler}
use btptester_core.Testcases.Utils.{verify_uuid}
use btptester_core.Testcases.Advertised.{offered, is_uuid_list, IsUuid16, verify_uuid-half}

-- the header of a device found event
abbrev pub found_header : ℕ → Header
found_header n = record {
  svc_id = btp_service_id_gap;
  op = Ops.gap_ev_device_found;
  ctrl_index = 0;
  data_len = n;
}

found-callback : callback btp_service_id_gap Ops.gap_ev_device_found ≡ some gap_device_found_ev_
unfolding callback Dict.get
found-callback = refl

found-is_event : (n : ℕ) → is_event (found_header n) ≡ true
unfolding is_event
found-is_event n = refl

-- A device with its receiving thread ended, and one more device found.
abbrev pub ended : Gap → LeAdv → Iut → Iut
ended g adv i = record i {
  alive = false;
  world = record i.world {
    stack = record i.world.stack {
      gap = some (record g { found_devices = g.found_devices ++ adv ∷ [] });
    };
  };
}

module _ (reorder : List BtpEventListener → List BtpEventListener) where
  receive-raises :
      (i : Iut) (h : BtpEventHandler) (e : Exc) (hdr : Header) (dat : Bytes) (later : List Frame)
      → i.alive ≡ true
      → is_event hdr ≡ true
      → handle_event reorder hdr dat (handler_of i) ≡ (err e, h)
      → receive reorder ((hdr, dat) ∷ later) i ≡ record (with_handler h i) { alive = false }
  unfolding receive with_handler
  receive-raises i h e hdr dat later a v r =
      let dies = rx_frame-raises reorder hdr dat (loaded i) (handler_of i) h e refl v r in
      let first = rx_task-step reorder hdr dat later (loaded i) a in
      let stays =
        rx_task-dead reorder later (record (loaded i) { handler = some h; alive = false }) refl in
      ap (λ w. unloaded w i) (first ∙ ap (rx_task reorder later) dies ∙ stays)

  -- Once the receiving thread of a device has ended, nothing reaches it.
  receive-dead : (frames : List Frame) (i : Iut) → i.alive ≡ false → receive reorder frames i ≡ i
  unfolding receive
  receive-dead frames i d = ap (λ w. unloaded w i) (rx_task-dead reorder frames (loaded i) d)

  -- the event handler of the device on the event, up to the test that raises
  handle-found :
      (i : Iut) (g : Gap) (n k : ℕ) (f : EvArgs → Result Bool) (payload : Bytes) (adv : LeAdv)
      (e : Exc)
      → listeners_of (handler_of i) (btp_service_id_gap, Ops.gap_ev_device_found)
        ≡ listener n (some f) ∷ []
      → gap_device_found_ev_ payload i.world.stack ≡ (ok (found adv), (ended g adv i).world.stack)
      → f (found adv) ≡ err e
      → handle_event reorder (found_header k) payload (handler_of i)
        ≡ (err e, record (handler_of i) { stack = some (ended g adv i).world.stack })
  unfolding finish run_callback handler_of listeners_of
  handle-found i g n k f payload adv e one runs raises =
      let at_cb =
        handle_event-run reorder (found_header k) payload (handler_of i) i.world.stack refl in
      let told =
        notify-raises reorder (btp_service_id_gap, Ops.gap_ev_device_found) (found adv) (λ l. true)
          (record (handler_of i) { stack = some (ended g adv i).world.stack }) [] []
          (listener n (some f)) e one tt raises in
      at_cb
      ∙ rw (found-callback, runs)
          (told
            ∙ ap
                (λ r. (
                  err e,
                  record (handler_of i) { stack = some (ended g adv i).world.stack; released = r },
                ))
                (append-nil i.released))

  -- While a device looks for an advertisement with a UUID, one with a list of UUIDs that has a byte
  -- too many ends its receiving thread: the device is added to those found, the search is not
  -- answered, and no frame that comes later, in this step or another, is read.
  pub receive-half :
      (i : Iut) (g : Gap) (n k t a b c d e f rssi flags kind : ℕ) (u dat : Bytes)
      (before after : List Record) (later more : List Frame)
      → i.alive ≡ true
      → i.world.stack.gap ≡ some g
      → listeners_of (handler_of i) (btp_service_id_gap, Ops.gap_ev_device_found)
        ≡ listener n (some (verify_uuid u)) ∷ []
      → IsUuid16 u
      → All IsUuid16 (offered before)
      → is_uuid_list kind ≡ true
      → length dat % 2 ≡ 1
      → length (enc_ad (before ++ (kind, dat) ∷ after)) < 65536
      → let eir = enc_ad (before ++ (kind, dat) ∷ after) in
        let adv : LeAdv = record {
          addr = ble_from_wire t (six a b c d e f);
          rssi = rssi;
          flags = flags;
          eir = eir;
        } in
        let payload = found_payload t (six a b c d e f) rssi flags eir in
        let i' = receive reorder ((found_header k, payload) ∷ later) i in
        (i' ≡ ended g adv i) × (receive reorder more i' ≡ i')
  unfolding with_handler handler_of
  receive-half i g n k t a b c d e f rssi flags kind u dat before after later more al hg one hu hb
        is_list odd small =
      let eir = enc_ad (before ++ (kind, dat) ∷ after) in
      let adv : LeAdv = record {
        addr = ble_from_wire t (six a b c d e f);
        rssi = rssi;
        flags = flags;
        eir = eir;
      } in
      let payload = found_payload t (six a b c d e f) rssi flags eir in
      let runs =
        gap_device_found_ev-found_payload i.world.stack g t a b c d e f rssi flags eir hg small in
      let raises = verify_uuid-half kind dat after is_list odd u before adv hu hb refl in
      let first : receive reorder ((found_header k, payload) ∷ later) i ≡ ended g adv i =
        receive-raises i (record (handler_of i) { stack = some (ended g adv i).world.stack })
          value_error (found_header k) payload later al (found-is_event k)
          (handle-found i g n k (verify_uuid u) payload adv value_error one runs raises) in
      (first, ap (receive reorder more) first ∙ receive-dead more (ended g adv i) refl ∙ sym first)
