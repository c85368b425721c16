-- ===== src/Events/Handler/Listeners.antt =====
-- Listeners and `BTPEventHandler.__call__`.
use btptester_core.Prelude.{
  ℕ, Bool, true, false, ◌&&◌, ◌≡◌, ◌↔◌, Option, none, some, List, [], ◌∷◌, ◌++◌, Bytes, ◌==◌, arith,
  ==_iff, if◌then◌else◌,
}
use btptester_core.Result.{Result, ok, err, ◌>>=◌}
use btptester_core.Parser.{Header}
use btptester_core.Dict
use btptester_core.Dict.{Dict, Eq}
use btptester_core.Stack.{Stack}
use btptester_core.Exec.{Exec}
use btptester_core.Events.Args.{EvArgs, Handler}
use btptester_core.Events.Handler.{callback}

-- A listener: who waits, the test that it was given, if any, and the arguments that passed it.
-- A test may raise.
pub record BtpEventListener : Type 0 where
  pub waiter : ℕ
  pub verify_f : Option (EvArgs → Result Bool)
  pub result : Option EvArgs

-- BTPEventListener(verify_f)
abbrev pub listener : ℕ → Option (EvArgs → Result Bool) → BtpEventListener
listener waiter verify_f = record { waiter = waiter; verify_f = verify_f; result = none }

abbrev judged : EvArgs → BtpEventListener → Result Bool → Result (BtpEventListener × Bool)
judged args l (err e) = err e
judged args l (ok true) = ok (record l { result = some args }, true)
judged args l (ok false) = ok (l, false)

unfoldable pub verify : BtpEventListener → EvArgs → Result (BtpEventListener × Bool)
verify l args = elim l.verify_f [
  | none ↦ ok (record l { result = some args }, true)
  | some f ↦ judged args l (f args)
]

-- Keys of `listeners`: service and opcode.
abbrev pub EvKey : Type 0
EvKey = ℕ × ℕ

unfoldable pub key_eq : EvKey → EvKey → Bool
key_eq (a, b) (c, d) = (a == c) && (b == d)

pub key_eq_iff : (a b : EvKey) → (key_eq a b ≡ true) ↔ (a ≡ b)
unfolding key_eq
key_eq_iff (a, b) (c, d) = ground (arith, ==_iff a c, ==_iff b d)

instance abbrev pub ev_key_eq : Eq EvKey
ev_key_eq = record { beq = key_eq; beq_iff = key_eq_iff }

-- The handler's state. `released` is the listeners whose semaphore was released, in that order:
-- their futures resolve to `result`.
pub record BtpEventHandler : Type 0 where
  pub stack : Option Stack
  pub listeners : Dict EvKey (List BtpEventListener)
  pub released : List BtpEventListener

-- self.listeners[svc_id][op], where a missing key is an empty list
unfoldable pub listeners_of : BtpEventHandler → EvKey → List BtpEventListener
listeners_of h k = elim (Dict.get h.listeners k) [ none ↦ [] | some l ↦ l ]

unfoldable pub wait_for_event :
    ℕ → Option (EvArgs → Result Bool) → ℕ → ℕ → BtpEventHandler → BtpEventHandler
unfolding listeners_of
wait_for_event waiter f svc_id op h = record h {
  listeners =
      Dict.put h.listeners (svc_id, op) (listeners_of h (svc_id, op) ++ listener waiter f ∷ []);
}

-- the listeners that the loop releases, up to a test that raises
unfoldable pub passed : EvArgs → List BtpEventListener → List BtpEventListener
unfolding verify
passed args [] = []
passed args (l ∷ ls) =
    let rest = passed args ls in
    elim (verify l args) [ err e ↦ [] | ok (l', done) ↦ if done then l' ∷ rest else rest ]

-- those that stay, once the loop has come to its end
unfoldable pub kept : EvArgs → List BtpEventListener → Result (List BtpEventListener)
unfolding verify
kept args [] = ok []
kept args (l ∷ ls) =
    let rest = kept args ls in
    elim (verify l args) [
      | err e ↦ err e
      | ok (l', done) ↦ if done then rest else rest >>= λ ls'. ok (l' ∷ ls')
    ]

unfoldable pub all_listeners : Dict EvKey (List BtpEventListener) → List BtpEventListener
all_listeners [] = []
all_listeners ((k, ls) ∷ d) = ls ++ all_listeners d

-- Every listener is released, and none stays.
unfoldable pub clear_listeners : BtpEventHandler → BtpEventHandler
unfolding all_listeners
clear_listeners h = record h { listeners = []; released = h.released ++ all_listeners h.listeners }

-- The rest of `__call__` once the callback has returned. `list(set(listeners) - set(...))` has no
-- order of its own: `reorder` is the one that Python happens to choose.
module _ (reorder : List BtpEventListener → List BtpEventListener) where
  -- a test that raises leaves the list as it is
  abbrev store_kept :
      EvKey → Result (List BtpEventListener) → BtpEventHandler → Result Bool × BtpEventHandler
  store_kept k (ok ls) h = (ok true, record h { listeners = Dict.put h.listeners k (reorder ls) })
  store_kept k (err e) h = (err e, h)

  unfoldable pub notify : EvKey → EvArgs → BtpEventHandler → Result Bool × BtpEventHandler
  unfolding listeners_of passed kept
  notify k args h =
      store_kept k (kept args (listeners_of h k))
        (record h { released = h.released ++ passed args (listeners_of h k) })

  -- what the callback did to the stack stays, also where something raised
  unfoldable pub finish :
      EvKey → Result EvArgs × Stack → BtpEventHandler → Result Bool × BtpEventHandler
  unfolding notify
  finish k (ok ret, s) h = notify k ret (record h { stack = some s })
  finish k (err e, s) h = (err e, record h { stack = some s })

  unfoldable pub run_callback :
      Option (Bytes → Handler)
      → Header
      → Bytes
      → Stack
      → BtpEventHandler
      → Result Bool × BtpEventHandler
  unfolding finish
  run_callback none hdr dat s h = (ok false, h)
  run_callback (some cb) hdr dat s h = finish (hdr.svc_id, hdr.op) (cb dat s) h

  -- __call__(hdr, data)
  unfoldable pub handle_event : Header → Bytes → Exec BtpEventHandler Bool
  unfolding run_callback callback
  handle_event hdr dat h = elim h.stack [
    | none ↦ (ok false, h)
    | some s ↦ run_callback (callback hdr.svc_id hdr.op) hdr dat s h
  ]
