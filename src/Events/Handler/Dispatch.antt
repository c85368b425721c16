-- ===== src/Events/Handler/Dispatch.antt =====
-- Theorems on what `BTPEventHandler` does with an event.
use btptester_core.Prelude.{
  ◌==◌, sym, ◌∙◌, ap, subst, Bool-cases, Option-cases, if◌then◌else◌, ◌⊎◌, inl, inr, map, not, ℕ,
  ◌≡◌, refl, Bytes, List, [], ◌∷◌, All, arith, Option, none, some, Bool, true, false, ◌++◌,
  Option-cases,
}
use btptester_core.Parser.{Header}
use btptester_core.Dict
use btptester_core.Dict.{Dict, nat_eq}
use btptester_core.Defs.Core.{btp_service_id_gap}
use btptester_core.Events.Handler.{gap_ev, callback}
use btptester_core.Events.Handler.Listeners.{
  BtpEventListener, BtpEventHandler, EvKey, ev_key_eq, key_eq, handle_event, run_callback, finish,
  notify, listeners_of, passed, kept, verify,
}
use btptester_core.Result.{Exc, Result, ok, err}
use btptester_core.Stack.{Stack}
use btptester_core.Events.Args.{Handler, EvArgs}
use btptester_core.Events.Gap.Atomic.{
  IsAtomic, new_settings-IsAtomic, device_found-IsAtomic, connected-IsAtomic, disconnected-IsAtomic,
  passkey_entry_req-IsAtomic, passkey_disp-IsAtomic, passkey_confirm_req-IsAtomic,
  identity_resolved-IsAtomic, conn_param_update-IsAtomic, sec_level_changed-IsAtomic,
  pairing_consent-IsAtomic,
}

-- Every handler of the GAP table leaves the stack as it was whenever it raises.
pub gap_ev-IsAtomic : All (λ e. IsAtomic e.1) gap_ev
gap_ev-IsAtomic = (
  new_settings-IsAtomic,
  (
    device_found-IsAtomic,
    (
      connected-IsAtomic,
      (
        disconnected-IsAtomic,
        (
          passkey_entry_req-IsAtomic,
          (
            passkey_disp-IsAtomic,
            (
              passkey_confirm_req-IsAtomic,
              (
                identity_resolved-IsAtomic,
                (
                  conn_param_update-IsAtomic,
                  (sec_level_changed-IsAtomic, (pairing_consent-IsAtomic, tt)),
                ),
              ),
            ),
          ),
        ),
      ),
    ),
  ),
)

get-here :
    {V : Type 0} (j k : ℕ) (w : V) (d : Dict ℕ V) {v : V}
    → (j == k) ≡ true
    → Dict.get ((j, w) ∷ d) k ≡ some v
    → w ≡ v
unfolding Dict.get
get-here j k w d h e = ground (arith, h, e)

get-there :
    {V : Type 0} (j k : ℕ) (w : V) (d : Dict ℕ V)
    → (j == k) ≡ false
    → Dict.get ((j, w) ∷ d) k ≡ Dict.get d k
unfolding Dict.get
get-there j k w d h = rw h refl

All-get :
    {V : Type 0} (P : V → Type 0) (d : Dict ℕ V) (k : ℕ) {v : V}
    → All (λ e. P e.1) d
    → Dict.get d k ≡ some v
    → P v
unfolding Dict.get
All-get P [] k h e = cc
All-get P ((j, w) ∷ d) k (h, t) e = elim (Bool-cases (j == k)) [
  | inl q ↦ subst P (get-here j k w d q e) h
  | inr q ↦ All-get P d k t (sym (get-there j k w d q) ∙ e)
]

-- The test that a listener was given; without one, everything passes.
abbrev pub accepts : EvArgs → BtpEventListener → Result Bool
accepts args l = elim l.verify_f [ none ↦ ok true | some f ↦ f args ]

-- The listener once it has its result.
abbrev pub answered : EvArgs → BtpEventListener → BtpEventListener
answered args l = record l { result = some args }

abbrev pub select : (BtpEventListener → Bool) → List BtpEventListener → List BtpEventListener
select p [] = []
select p (l ∷ ls) = if p l then l ∷ select p ls else select p ls

-- No test raises, and the tests say what `verdict` says.
abbrev pub Judges : EvArgs → (BtpEventListener → Bool) → List BtpEventListener → Type 0
Judges args verdict = All (λ l. accepts args l ≡ ok (verdict l))

module _ (args : EvArgs) (verdict : BtpEventListener → Bool) where
  passed-select :
      (ls : List BtpEventListener)
      → Judges args verdict ls
      → passed args ls ≡ map (answered args) (select verdict ls)
  unfolding passed verify
  passed-select [] h = refl
  passed-select (l ∷ ls) h = ground (arith, passed-select ls)

  kept-select :
      (ls : List BtpEventListener)
      → Judges args verdict ls
      → kept args ls ≡ ok (select (λ l. not (verdict l)) ls)
  unfolding kept verify
  kept-select [] h = refl
  kept-select (l ∷ ls) h = ground (arith, kept-select ls)

-- The first test that raises, behind those that `verdict` describes.
passed-raises :
    (args : EvArgs) (verdict : BtpEventListener → Bool) (e : Exc) (l : BtpEventListener)
    (earlier later : List BtpEventListener)
    → Judges args verdict earlier
    → accepts args l ≡ err e
    → (passed args (earlier ++ l ∷ later) ≡ map (answered args) (select verdict earlier))
      × (kept args (earlier ++ l ∷ later) ≡ err e)
unfolding passed kept verify
passed-raises args verdict e l [] later h r = ground arith
passed-raises args verdict e l (l' ∷ earlier) later h r =
    ground (arith, passed-raises args verdict e l earlier later)

callback-gap :
    (hdr : Header)
    → hdr.svc_id ≡ btp_service_id_gap
    → callback hdr.svc_id hdr.op ≡ Dict.get gap_ev hdr.op
unfolding callback Dict.get
callback-gap hdr h = rw h refl

listeners_of-put :
    (h : BtpEventHandler) (k other : EvKey) (ls r : List BtpEventListener)
    → listeners_of (record h { listeners = Dict.put h.listeners k ls; released = r }) other
      ≡ (if key_eq k other then ls else listeners_of h other)
unfolding listeners_of
listeners_of-put h k other ls r = ground (arith, Dict.get-put h.listeners k other ls)

module _ (reorder : List BtpEventListener → List BtpEventListener) where
  -- An event that no table has, or that comes while there is no stack, is refused: the call
  -- returns False, and neither the stack nor a listener changes.
  pub handle_event_unknown :
      (hdr : Header) (dat : Bytes) (h : BtpEventHandler)
      → (h.stack ≡ none) ⊎ (callback hdr.svc_id hdr.op ≡ none)
      → handle_event reorder hdr dat h ≡ (ok false, h)
  unfolding handle_event run_callback
  handle_event_unknown hdr dat h (inl e) = ground (arith, e)
  handle_event_unknown hdr dat h (inr e) = ground (arith, e)

  finish-error :
      (k : EvKey) (r : Result EvArgs) (s : Stack) (h : BtpEventHandler) (e : Exc)
      → ((args : EvArgs)
          → (verdict : BtpEventListener → Bool) × Judges args verdict (listeners_of h k))
      → ((f : Exc) → r ≡ err f → some s ≡ h.stack)
      → (finish reorder k (r, s) h).0 ≡ err e
      → (finish reorder k (r, s) h).1 ≡ h
  unfolding finish notify listeners_of
  finish-error k (err f) s h e judges atomic he = ground (arith, atomic f refl)
  finish-error k (ok args) s h e judges atomic he =
      let (verdict, j) = judges args in
      ground (arith, kept-select args verdict (listeners_of h k) j)

  run_callback-error :
      (o : Option (Bytes → Handler)) (hdr : Header) (dat : Bytes) (s : Stack) (h : BtpEventHandler)
      (e : Exc)
      → ((cb : Bytes → Handler) → o ≡ some cb → IsAtomic cb)
      → ((args : EvArgs)
          → (verdict : BtpEventListener → Bool) × Judges args verdict
              (listeners_of h (hdr.svc_id, hdr.op)))
      → h.stack ≡ some s
      → (run_callback reorder o hdr dat s h).0 ≡ err e
      → (run_callback reorder o hdr dat s h).1 ≡ h
  unfolding run_callback
  run_callback-error none hdr dat s h e a j hs he = refl
  run_callback-error (some cb) hdr dat s h e a j hs he =
      finish-error (hdr.svc_id, hdr.op) (cb dat s).0 (cb dat s).1 h e j
        (λ f q. ap some (a cb refl dat s f q) ∙ sym hs) he

  pub handle_event-run :
      (hdr : Header) (dat : Bytes) (h : BtpEventHandler) (s : Stack)
      → h.stack ≡ some s
      → handle_event reorder hdr dat h
        ≡ run_callback reorder (callback hdr.svc_id hdr.op) hdr dat s h
  unfolding handle_event
  handle_event-run hdr dat h s hs = rw hs refl

  -- If no test of a listener of the event raises, then whenever a GAP event makes the call raise,
  -- the stack and the listeners are as before.
  pub handle_event_gap_error :
      (hdr : Header) (dat : Bytes) (h : BtpEventHandler) (e : Exc)
      → hdr.svc_id ≡ btp_service_id_gap
      → ((args : EvArgs)
          → (verdict : BtpEventListener → Bool) × Judges args verdict
              (listeners_of h (hdr.svc_id, hdr.op)))
      → (handle_event reorder hdr dat h).0 ≡ err e
      → (handle_event reorder hdr dat h).1 ≡ h
  handle_event_gap_error hdr dat h e hs j he = elim (Option-cases h.stack) [
    | inl q ↦ ap (λ r. r.1) (handle_event_unknown hdr dat h (inl q))
    | inr (s, q) ↦
        let run = handle_event-run hdr dat h s q in
        ap (λ r. r.1) run
        ∙ run_callback-error (callback hdr.svc_id hdr.op) hdr dat s h e
            (λ cb c. All-get IsAtomic gap_ev hdr.op gap_ev-IsAtomic (sym (callback-gap hdr hs) ∙ c))
            j q (sym (ap (λ r. r.0) run) ∙ he)
  ]

  -- After a callback that returns `args`, if no test of the event's listeners raises: the call
  -- returns True; the listeners whose test accepts `args` are released in the order in which they
  -- came, with `args` as their result; those that do not accept it stay, in the order that
  -- `reorder` makes; the listeners of other events stay as they are.
  pub notify-select :
      (k other : EvKey) (args : EvArgs) (verdict : BtpEventListener → Bool) (h : BtpEventHandler)
      → Judges args verdict (listeners_of h k)
      → let (r, h') = notify reorder k args h in
        (r ≡ ok true)
        × (h'.released ≡ h.released ++ map (answered args) (select verdict (listeners_of h k)))
        × (listeners_of h' other ≡ (
            if key_eq k other
            then reorder (select (λ l. not (verdict l)) (listeners_of h k))
            else listeners_of h other))
  unfolding notify
  notify-select k other args verdict h j = rw (kept-select args verdict (listeners_of h k) j) (
    refl,
    rw (passed-select args verdict (listeners_of h k) j) refl,
    listeners_of-put h k other (reorder (select (λ l. not (verdict l)) (listeners_of h k)))
        (h.released ++ passed args (listeners_of h k)),
  )

  -- If a listener's test raises, the exception leaves the call, and it stops there: the listeners
  -- in front of it that accept the arguments are released, but every listener stays on its list,
  -- and those behind it are not asked.
  pub notify-raises :
      (k : EvKey) (args : EvArgs) (verdict : BtpEventListener → Bool) (h : BtpEventHandler)
      (earlier later : List BtpEventListener) (l : BtpEventListener) (e : Exc)
      → listeners_of h k ≡ earlier ++ l ∷ later
      → Judges args verdict earlier
      → accepts args l ≡ err e
      → notify reorder k args h ≡ (
        err e,
        record h { released = h.released ++ map (answered args) (select verdict earlier) },
      )
  unfolding notify
  notify-raises k args verdict h earlier later l e same j r =
      let (some_passed, none_kept) = passed-raises args verdict e l earlier later j r in
      rw same (rw (none_kept, some_passed) refl)
