-- ===== src/Testcases/Futures.antt =====
-- What stays true of listeners while frames of any kind arrive: who made them, and that those
-- which were released have passed their tests.
pub mod Frames
use btptester_core.Prelude.{
  ℕ, ◌≡◌, refl, arith, Bool, true, false, Bool-cases, Option-cases, subst, inl, inr, ◌⊎◌, Option,
  some, List, [], ◌∷◌, All,
}
use btptester_core.Result.{Exc, Result, ok, err, ◌>>=◌}
use btptester_core.Dict
use btptester_core.Dict.{Dict}
use btptester_core.Events.Args.{EvArgs}
use btptester_core.Events.Handler.Listeners.{
  BtpEventListener, BtpEventHandler, EvKey, ev_key_eq, key_eq, listeners_of, passed, kept, verify,
}
use btptester_core.Events.Handler.Dispatch.{accepts}

abbrev pub Listening : Type 1
Listening = ℕ → Option (EvArgs → Result Bool) → Type 0

-- `P` of the number and the test of a listener; and its result has passed the test.
abbrev pub Told : Listening → BtpEventListener → Type 0
Told P l = P l.waiter l.verify_f

abbrev pub Passed : BtpEventListener → Type 0
Passed l = (args : EvArgs) × (l.result ≡ some args) × (accepts args l ≡ ok true)

abbrev pub AllTold : Listening → Dict EvKey (List BtpEventListener) → Type 0
AllTold P d = All (λ e. All (Told P) e.1) d

abbrev pub AllPassed : Listening → List BtpEventListener → Type 0
AllPassed P ls = All (λ l. Told P l × Passed l) ls

abbrev pub Keeps : Listening → BtpEventHandler → Type 0
Keeps P h = AllTold P h.listeners × AllPassed P h.released

Result-cases : (r : Result Bool) → ((e : Exc) × (r ≡ err e)) ⊎ ((r ≡ ok true) ⊎ (r ≡ ok false))
Result-cases (err e) = inl (e, refl)
Result-cases (ok true) = inr (inl refl)
Result-cases (ok false) = inr (inr refl)

Kept-cases :
    (r : Result (List BtpEventListener))
    → ((e : Exc) × (r ≡ err e)) ⊎ ((ls : List BtpEventListener) × (r ≡ ok ls))
Kept-cases (err e) = inl (e, refl)
Kept-cases (ok ls) = inr (ls, refl)

module _ (args : EvArgs) (l : BtpEventListener) where
  verify-err : (e : Exc) → accepts args l ≡ err e → verify l args ≡ err e
  unfolding verify
  verify-err e h = ground arith

  verify-true :
      accepts args l ≡ ok true → verify l args ≡ ok (record l { result = some args }, true)
  unfolding verify
  verify-true h = ground arith

  verify-false : accepts args l ≡ ok false → verify l args ≡ ok (l, false)
  unfolding verify
  verify-false h = ground arith

module _ (P : Listening) where
  pub put-AllTold :
      (d : Dict EvKey (List BtpEventListener)) (k : EvKey) (ls : List BtpEventListener)
      → AllTold P d
      → All (Told P) ls
      → AllTold P (Dict.put d k ls)
  unfolding Dict.put
  put-AllTold [] k ls h t = (t, tt)
  put-AllTold ((j, old) ∷ d) k ls (here, later) t = elim (Bool-cases (key_eq j k)) [
    | inl y ↦ rw y (t, later)
    | inr n ↦ rw n (here, put-AllTold d k ls later t)
  ]

  get-AllTold :
      (d : Dict EvKey (List BtpEventListener)) (k : EvKey) (ls : List BtpEventListener)
      → AllTold P d
      → Dict.get d k ≡ some ls
      → All (Told P) ls
  unfolding Dict.get
  get-AllTold [] k ls h e = cc
  get-AllTold ((j, old) ∷ d) k ls (here, later) e = elim (Bool-cases (key_eq j k)) [
    | inl y ↦ let same : old ≡ ls = ground arith in subst (All (Told P)) same here
    | inr n ↦ let rest : Dict.get d k ≡ some ls = ground arith in get-AllTold d k ls later rest
  ]

  pub listeners_of-AllTold :
      (h : BtpEventHandler) (k : EvKey) → AllTold P h.listeners → All (Told P) (listeners_of h k)
  unfolding listeners_of
  listeners_of-AllTold h k t = elim (Option-cases (Dict.get h.listeners k)) [
    | inl n ↦ rw (n, listeners_of) tt
    | inr (ls, y) ↦ rw (y, listeners_of) (get-AllTold h.listeners k ls t y)
  ]

  passed-AllPassed :
      (args : EvArgs) (ls : List BtpEventListener) → All (Told P) ls → AllPassed P (passed args ls)
  unfolding passed
  passed-AllPassed args [] h = tt
  passed-AllPassed args (l ∷ ls) (t, ts) = elim (Result-cases (accepts args l)) [
    | inl (e, x) ↦ rw (verify-err args l e x, passed) tt
    | inr (inl y) ↦
        rw (verify-true args l y, passed) ((t, (args, refl, y)), passed-AllPassed args ls ts)
    | inr (inr n) ↦ rw (verify-false args l n, passed) (passed-AllPassed args ls ts)
  ]

  abbrev AllToldOk : Result (List BtpEventListener) → Type 0
  AllToldOk (err e) = Unit
  AllToldOk (ok ls) = All (Told P) ls

  onto-AllToldOk :
      (l : BtpEventListener) (r : Result (List BtpEventListener))
      → Told P l
      → AllToldOk r
      → AllToldOk (r >>= λ ls. ok (l ∷ ls))
  onto-AllToldOk l (err e) t h = tt
  onto-AllToldOk l (ok ls) t h = (t, h)

  kept-AllToldOk :
      (args : EvArgs) (ls : List BtpEventListener) → All (Told P) ls → AllToldOk (kept args ls)
  unfolding kept
  kept-AllToldOk args [] h = tt
  kept-AllToldOk args (l ∷ ls) (t, ts) = elim (Result-cases (accepts args l)) [
    | inl (e, x) ↦ rw (verify-err args l e x, kept) tt
    | inr (inl y) ↦ rw (verify-true args l y, kept) (kept-AllToldOk args ls ts)
    | inr (inr n) ↦
        rw (verify-false args l n, kept)
          (onto-AllToldOk l (kept args ls) t (kept-AllToldOk args ls ts))
  ]
