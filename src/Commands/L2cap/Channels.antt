-- ===== src/Commands/L2cap/Channels.antt =====
-- The channels that the tester keeps while L2CAP events come in, as a set of channels.
use btptester_core.Prelude.{
  ℕ, ◌≡◌, ◌∙◌, ap, refl, fun_ext, Bool, true, false, not, inl, inr, ◌||◌, ◌&&◌, Option, none, some,
  List, [], ◌∷◌, ◌++◌, Bytes, arith, ==_iff, ◌==◌, if◌then◌else◌, Bool-cases, inl, inr,
}
use btptester_core.Result.{Result, ok, err, value_error}
use btptester_core.Struct.{raw}
use btptester_core.Parser.{Header}
use btptester_core.Defs.Core.{btp_service_id_l2cap}
use btptester_core.Defs.L2cap as Ops
use btptester_core.Stack.{L2cap}
use btptester_core.Exec.{pure, ◌>>◌}
use btptester_core.Worker.{World, Btp, read}
use btptester_core.Commands.Response.{btp_hdr_check}
use btptester_core.Commands.L2cap.{
  l2cap_frame, l2cap_connected_ev, l2cap_disconnected_ev, b_h_b_6s, h_b_h_b_6s, channel_connected,
  channel_removed, has_channel, remove_first, store_value,
}

-- PSM, address type and address of the peer, byte by byte
pub record Peer : Type 0 where
  pub psm : ℕ × ℕ
  pub addr_type : ℕ
  pub addr : ℕ × ℕ × ℕ × ℕ × ℕ × ℕ

-- What the device reports: a channel, with its peer; for a disconnection, its reason too.
pub data Event : Type 0 where
  connected : ℕ → Peer → Event
  disconnected : ℕ → ℕ × ℕ → Peer → Event

abbrev pub peer_bytes : Peer → Bytes
peer_bytes p =
    p.psm.0 ∷ p.psm.1 ∷ p.addr_type ∷ p.addr.0 ∷ p.addr.1 ∷ p.addr.2 ∷ p.addr.3 ∷ p.addr.4
    ∷ p.addr.5 ∷ []

abbrev pub frame_of : ℕ → Bytes → Header × Bytes
frame_of op dat =
    (record { svc_id = btp_service_id_l2cap; op = op; ctrl_index = 0; data_len = 12 }, dat)

abbrev pub event_frame : Event → Header × Bytes
event_frame (connected c p) = frame_of Ops.l2cap_ev_connected (c ∷ peer_bytes p)
event_frame (disconnected c r p) = frame_of Ops.l2cap_ev_disconnected (r.0 ∷ r.1 ∷ c ∷ peer_bytes p)

abbrev handle : Event → Btp (Unit {0})
handle (connected c p) = l2cap_connected_ev
handle (disconnected c r p) = l2cap_disconnected_ev c false

-- The test case reads one event after another; it expects the channel that is reported.
unfoldable pub handle_events : List Event → Btp (Unit {0})
handle_events [] = pure tt
handle_events (e ∷ evs) = do handle e; handle_events evs

abbrev pub with_l2cap : L2cap → List (Header × Bytes) → World → World
with_l2cap l frames w = record w { stack = record w.stack { l2cap = some l }; rx_queue = frames }

-- A channel is open or not; a channel that is not open cannot be closed.
unfoldable pub open_after : (ℕ → Bool) → List Event → Option (ℕ → Bool)
open_after is_open [] = some is_open
open_after is_open (connected c p ∷ evs) = open_after (λ x. (c == x) || is_open x) evs
open_after is_open (disconnected c r p ∷ evs) =
    let later = open_after (λ x. not (c == x) && is_open x) evs in if is_open c then later else none

abbrev open_in : Option L2cap → Option (ℕ → Bool)
open_in none = none
open_in (some l) = some (has_channel l.channels)

-- the open channels of what is kept, where the code has run to its end
abbrev pub open_of : Result (Unit {0}) × World → Option (ℕ → Bool)
open_of (ok u, w) = open_in w.stack.l2cap
open_of (err e, w) = none

unfoldable pub IsDistinct : List ℕ → Type 0
IsDistinct [] = Unit
IsDistinct (c ∷ l) = (has_channel l c ≡ false) × IsDistinct l

handle-connected :
    (c : ℕ) (p : Peer) (l : L2cap) (q : List (Header × Bytes)) (w : World)
    → l2cap_connected_ev (with_l2cap l (event_frame (connected c p) ∷ q) w)
      ≡ (ok tt, with_l2cap (channel_connected l c) q w)
unfolding l2cap_connected_ev l2cap_frame read btp_hdr_check b_h_b_6s raw
handle-connected c p l q w = refl

handle-disconnected :
    (c : ℕ) (r : ℕ × ℕ) (p : Peer) (l : L2cap) (q : List (Header × Bytes)) (w : World)
    → has_channel l.channels c ≡ true
    → l2cap_disconnected_ev c false (with_l2cap l (event_frame (disconnected c r p) ∷ q) w)
      ≡ (ok tt, with_l2cap (record l { channels = remove_first l.channels c }) q w)
unfolding l2cap_disconnected_ev l2cap_frame read btp_hdr_check h_b_h_b_6s raw store_value
    channel_removed
handle-disconnected c r p l q w h = ground (arith, ==_iff c c, h)

handle-unknown :
    (c : ℕ) (r : ℕ × ℕ) (p : Peer) (l : L2cap) (q : List (Header × Bytes)) (w : World)
    → has_channel l.channels c ≡ false
    → l2cap_disconnected_ev c false (with_l2cap l (event_frame (disconnected c r p) ∷ q) w)
      ≡ (err value_error, with_l2cap l q w)
unfolding l2cap_disconnected_ev l2cap_frame read btp_hdr_check h_b_h_b_6s raw channel_removed
handle-unknown c r p l q w h = ground (arith, h)

has_channel-append :
    (l : List ℕ) (c x : ℕ) → has_channel (l ++ c ∷ []) x ≡ has_channel l x || (c == x)
unfolding has_channel
has_channel-append [] c x = ground arith
has_channel-append (d ∷ l) c x = ground (arith, has_channel-append l c x)

has_channel-remove_first :
    (l : List ℕ) (c x : ℕ)
    → IsDistinct l
    → has_channel (remove_first l c) x ≡ not (c == x) && has_channel l x
unfolding has_channel remove_first IsDistinct
has_channel-remove_first [] c x h = ground arith
has_channel-remove_first (d ∷ l) c x (h, k) =
    ground (arith, has_channel-remove_first l c x k, h, ==_iff c x, ==_iff d x, ==_iff d c)

append-IsDistinct :
    (l : List ℕ) (c : ℕ) → IsDistinct l → has_channel l c ≡ false → IsDistinct (l ++ c ∷ [])
unfolding IsDistinct has_channel
append-IsDistinct [] c h n = (refl, tt)
append-IsDistinct (d ∷ l) c (h, k) n = (
  ground (arith, has_channel-append l c d, h, ==_iff c d, ==_iff d c, n),
  append-IsDistinct l c k (ground (arith, n)),
)

remove_first-IsDistinct : (l : List ℕ) (c : ℕ) → IsDistinct l → IsDistinct (remove_first l c)
unfolding IsDistinct remove_first
remove_first-IsDistinct [] c h = tt
remove_first-IsDistinct (d ∷ l) c (h, k) =
    ground (arith, has_channel-remove_first l c d k, remove_first-IsDistinct l c k, h, k)

-- the frames of the events, one behind the other
abbrev pub all_frames : List Event → List (Header × Bytes) → List (Header × Bytes)
all_frames [] later = later
all_frames (e ∷ evs) later = event_frame e ∷ all_frames evs later

-- No channel is kept twice.
abbrev pub KeepsDistinct : World → Type 0
KeepsDistinct w = elim w.stack.l2cap [ none ↦ Unit | some l ↦ IsDistinct l.channels ]

channel_connected-IsDistinct :
    (l : L2cap) (c : ℕ) → IsDistinct l.channels → IsDistinct (channel_connected l c).channels
unfolding channel_connected
channel_connected-IsDistinct l c d = elim (Bool-cases (has_channel l.channels c)) [
  | inl e ↦ rw e d
  | inr e ↦ rw e (append-IsDistinct l.channels c d e)
]

connected_set :
    (l : L2cap) (c : ℕ)
    → has_channel (channel_connected l c).channels ≡ (λ x. (c == x) || has_channel l.channels x)
unfolding channel_connected
connected_set l c = fun_ext λ x. ground (arith, has_channel-append l.channels c x, ==_iff c x)

removed_set :
    (l : List ℕ) (c : ℕ)
    → IsDistinct l
    → has_channel (remove_first l c) ≡ (λ x. not (c == x) && has_channel l x)
removed_set l c d = fun_ext λ x. has_channel-remove_first l c x d

-- What both parts of the refinement say of a run on some events.
abbrev pub Refines : List Event → L2cap → List (Header × Bytes) → World → Type 0
Refines evs l later w =
    let run = handle_events evs (with_l2cap l (all_frames evs later) w) in
    (open_of run ≡ open_after (has_channel l.channels) evs) × KeepsDistinct run.1

pub refines :
    (evs : List Event) (l : L2cap) (later : List (Header × Bytes)) (w : World)
    → IsDistinct l.channels
    → Refines evs l later w
unfolding handle_events open_after
refines [] l later w d = (refl, d)
refines (connected c p ∷ evs) l later w d =
    let q = all_frames evs later in
    let (s, k) = refines evs (channel_connected l c) later w (channel_connected-IsDistinct l c d) in
    rw (handle-connected c p l q w) (s ∙ ap (λ o. open_after o evs) (connected_set l c), k)
refines (disconnected c r p ∷ evs) l later w d =
    let q = all_frames evs later in
    elim (Bool-cases (has_channel l.channels c)) [
      | inl e ↦
          let m = record l { channels = remove_first l.channels c } in
          let (s, k) = refines evs m later w (remove_first-IsDistinct l.channels c d) in
          rw (handle-disconnected c r p l q w e, e)
            (s ∙ ap (λ o. open_after o evs) (removed_set l.channels c d), k)
      | inr e ↦ rw (handle-unknown c r p l q w e, e) (refl, d)
    ]
