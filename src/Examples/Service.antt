-- ===== src/Examples/Service.antt =====
-- Events on their way through the worker and the event handler, at concrete inputs.
use btptester_core.Prelude.{
  ◌≡◌, refl, none, some, List, [], ◌∷◌, ◌++◌, map, not, Bytes, true, All, Bool, if◌then◌else◌,
  arith,
}
use btptester_core.Result.{ok, err, struct_error}
use btptester_core.Parser.{Header}
use btptester_core.Dict
use btptester_core.Dict.{nat_eq}
use btptester_core.Gap
use btptester_core.Events.Gap.{gap_new_settings_ev_}
use btptester_core.GattCl
use btptester_core.GattCl.{GattCl}
use btptester_core.Stack
use btptester_core.Stack.{Stack}
use btptester_core.Decode.{SvcAttr}
use btptester_core.Events.Args.{EvArgs, nothing}
use btptester_core.Events.Handler.{callback}
use btptester_core.Events.Handler.Listeners.{
  BtpEventListener, BtpEventHandler, key_eq, listener, listeners_of, notify, handle_event,
  run_callback, finish,
}
use btptester_core.Events.Handler.Dispatch.{
  Judges, answered, select, notify-select, handle_event_gap_error,
}
use btptester_core.Events.GattCl.{gatt_cl_disc_all_prim_rsp_ev_}
use btptester_core.Events.GattCl.Loops.{prim_entry}
use btptester_core.Events.GattCl.Complete.{discoveries, discoveries_done}
use btptester_core.Events.GattCl.Procedure.{raises_or}
use btptester_core.Events.GattCl.Discovered.{prim_rsp, text_svc, prim_svcs_discovered}
use btptester_core.Events.Gap.Found.{six}
use btptester_core.Worker.Rx.{RxWorker, is_event, rx_frame, rx_task}
use btptester_core.Worker.Rx.Queue.{Frame, responses, responses-rx_task}

abbrev keep : List BtpEventListener → List BtpEventListener
keep l = l

abbrev gap_stack : Stack
gap_stack = record Stack.init { gap = some Gap.init }

abbrev waiting : BtpEventHandler
waiting = record {
  stack = some gap_stack;
  listeners = ((1, 0x80), listener 7 none ∷ []) ∷ [];
  released = [];
}

abbrev new_settings : Header
new_settings = record { svc_id = 1; op = 0x80; ctrl_index = 0; data_len = 1 }

-- one byte instead of four
short_event : (handle_event keep new_settings (0 ∷ []) waiting).0 ≡ err struct_error
unfolding handle_event run_callback finish callback Dict.get gap_new_settings_ev_
short_event = refl

abbrev all_pass : BtpEventListener → Bool
all_pass l = true

all_accept :
    (args : EvArgs)
    → (verdict : BtpEventListener → Bool) × Judges args verdict (listeners_of waiting (1, 0x80))
unfolding listeners_of Dict.get key_eq
all_accept args = (all_pass, (refl, tt))

handle_event_gap_error_example : (handle_event keep new_settings (0 ∷ []) waiting).1 ≡ waiting
handle_event_gap_error_example =
    handle_event_gap_error keep new_settings (0 ∷ []) waiting struct_error refl all_accept
      short_event

abbrev unknown : Header
unknown = record { svc_id = 1; op = 0xff; ctrl_index = 0; data_len = 0 }

no_callback : callback 1 0xff ≡ none
unfolding callback Dict.get
no_callback = refl

notify-select_example :
    let (r, h') = notify keep (1, 0x80) nothing waiting in
    (r ≡ ok true)
    × (h'.released
        ≡ [] ++ map (answered nothing) (select all_pass (listeners_of waiting (1, 0x80))))
    × (listeners_of h' (1, 0x81) ≡ (
        if key_eq (1, 0x80) (1, 0x81)
        then keep (select (λ l. not (all_pass l)) (listeners_of waiting (1, 0x80)))
        else listeners_of waiting (1, 0x81)))
unfolding listeners_of Dict.get key_eq
notify-select_example = notify-select keep (1, 0x80) (1, 0x81) nothing all_pass waiting (refl, tt)

abbrev client_stack : Stack
client_stack = record Stack.init { gatt_cl = some GattCl.init }

abbrev services : List (SvcAttr Bytes)
services = (1, 5, 0x0d ∷ 0x18 ∷ []) ∷ (6, 9, 0x0d ∷ 0x18 ∷ []) ∷ []

discoveries_done_example : All (λ d. raises_or d.1 (d.0 (1 ∷ []) client_stack) ≡ true) discoveries
discoveries_done_example = discoveries_done (1 ∷ []) client_stack

prim_svcs_discovered_example :
    (after : GattCl) × (gatt_cl_disc_all_prim_rsp_ev_
        (prim_rsp 0 (six 1 2 3 4 5 6) 0 services)
        client_stack
      ≡ (ok nothing, record client_stack { gatt_cl = some after }))
    × (after.prim_svcs ≡ map (λ x. prim_entry (text_svc x)) services)
prim_svcs_discovered_example =
    prim_svcs_discovered client_stack GattCl.init 0 1 2 3 4 5 6 0 (1, 5, 0x0d ∷ 0x18 ∷ [])
      ((6, 9, 0x0d ∷ 0x18 ∷ []) ∷ []) refl (ground arith)

abbrev rx : RxWorker
rx = record { rx_queue = []; handler = some waiting; alive = true }

abbrev response : Frame
response = (record { svc_id = 1; op = 6; ctrl_index = 0; data_len = 0 }, [])

abbrev arriving : List Frame
arriving = response ∷ (unknown, []) ∷ response ∷ []

still_alive : (rx_task keep arriving rx).alive ≡ true
unfolding rx_task rx_frame is_event handle_event run_callback callback Dict.get
still_alive = refl

responses-rx_task_example :
    responses (rx_task keep arriving rx).rx_queue ≡ responses [] ++ responses arriving
responses-rx_task_example = responses-rx_task keep arriving rx still_alive

is_new_settings : is_event new_settings ≡ true
unfolding is_event
is_new_settings = refl
