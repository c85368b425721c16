-- ===== src/Testcases/Steps.antt =====
-- What the steps of a test case do to the listeners of the two devices.
use btptester_core.Prelude.{
  ℕ, ◌≡◌, refl, ◌∙◌, arith, ◌==◌, ==_iff, Bool-cases, inl, inr, Option, some, List, [], ◌∷◌, Bytes,
  All,
}
use btptester_core.Result.{Result, ok, err}
use btptester_core.Parser.{Header}
use btptester_core.Exec.{Exec, resume, ◌>>=◌, ◌>>◌}
use btptester_core.Worker.{Btp, World}
use btptester_core.Events.Args.{EvArgs}
use btptester_core.Events.Handler.Listeners.{BtpEventListener}
use btptester_core.Testcases.Bench.{
  Bench, Iut, Side, iut1, iut2, iut, put_iut, handler_of, receive, arrive, pause, in_world, on,
  find_released,
}
use btptester_core.Testcases.Futures.{Listening, Told, Passed, AllPassed, Keeps}
use btptester_core.Testcases.Futures.Frames.{receive-Keeps, submitted-receive}

resume-ok :
    {S A B : Type 0} (r : Result A) (f : A → Exec S B) (s : S) (y : B)
    → (resume r f s).0 ≡ ok y
    → (x : A) × (r ≡ ok x) × ((f x s).0 ≡ ok y)
resume-ok (ok x) f s y h = (x, refl, h)
resume-ok (err e) f s y h = cc

module _ {S A B : Type 0} (m : Exec S A) (s : S) (y : B) where
  -- A block that has come to its end has come to the end of its parts.
  pub >>=-ok :
      (f : A → Exec S B)
      → ((m >>= f) s).0 ≡ ok y
      → (x : A) × ((m s).0 ≡ ok x) × ((f x (m s).1).0 ≡ ok y)
  >>=-ok f h = resume-ok (m s).0 f (m s).1 y h

  pub >>-ok : (k : Exec S B) → ((m >> k) s).0 ≡ ok y → (k (m s).1).0 ≡ ok y
  >>-ok k h = let (x, _, rest) = resume-ok (m s).0 (λ _. k) (m s).1 y h in rest

-- The state of a test in which the listeners of one device obey `P`, and `n` is its next future.
module _ (P : Listening) (n : ℕ) where
  abbrev pub GoodIut : (List BtpEventListener → List BtpEventListener) → Iut → Type 0
  GoodIut reorder i =
      Keeps P (handler_of i)
      × ((ls : List BtpEventListener) → All (Told P) ls → All (Told P) (reorder ls))
      × (i.submitted ≡ n)

  abbrev pub Good : Side → Bench → Type 0
  Good x b = GoodIut b.reorder (iut x b)

  receive-GoodIut :
      (reorder : List BtpEventListener → List BtpEventListener) (frames : List (Header × Bytes))
      (i : Iut)
      → GoodIut reorder i
      → GoodIut reorder (receive reorder frames i)
  receive-GoodIut reorder frames i (k, same, e) =
      (receive-Keeps P reorder same frames i k, same, submitted-receive reorder frames i ∙ e)

  arrive-Good :
      (l : List (List (Header × Bytes) × List (Header × Bytes))) (x : Side) (b : Bench)
      → Good x b
      → Good x (arrive l b)
  unfolding iut
  arrive-Good [] x b g = g
  arrive-Good ((f, s) ∷ later) iut1 b g = receive-GoodIut b.reorder f b.first g
  arrive-Good ((f, s) ∷ later) iut2 b g = receive-GoodIut b.reorder s b.second g

  pub pause-Good : (x : Side) (b : Bench) → Good x b → Good x (pause b).1
  unfolding pause
  pause-Good x b g = arrive-Good b.arrivals x b g

  -- a command works on the world of a device only
  in_world-Good :
      {A : Type 0} (x y : Side) (b : Bench) (r : Result A × World)
      → Good x b
      → Good x (in_world y b r).1
  unfolding iut put_iut handler_of
  in_world-Good iut1 iut1 b r g = g
  in_world-Good iut1 iut2 b r g = g
  in_world-Good iut2 iut1 b r g = g
  in_world-Good iut2 iut2 b r g = g

  pub put_iut-Good : (x : Side) (b : Bench) (i : Iut) → GoodIut b.reorder i → Good x (put_iut x i b)
  unfolding iut put_iut
  put_iut-Good iut1 b i g = g
  put_iut-Good iut2 b i g = g

  pub on-Good :
      {A : Type 0} (x y : Side) (command : Btp A) (b : Bench) → Good x b → Good x (on y command b).1
  unfolding on
  on-Good x y command b g =
      let b' = (pause b).1 in in_world-Good x y b' (command (iut y b').world) (pause-Good x b g)

  -- what has been released under a number
  pub find_released-Passed :
      (k : ℕ) (ls : List BtpEventListener) (r : Option EvArgs)
      → AllPassed P ls
      → find_released k ls ≡ some r
      → (l : BtpEventListener) × (l.waiter ≡ k) × Told P l × Passed l × (l.result ≡ r)
  unfolding find_released
  find_released-Passed k [] r h e = cc
  find_released-Passed k (l ∷ ls) r ((t, p), later) e = elim (Bool-cases (l.waiter == k)) [
    | inl y ↦ let same : l.result ≡ r = ground arith in (l, (==_iff l.waiter k).0 y, t, p, same)
    | inr f ↦
        let rest : find_released k ls ≡ some r = ground arith in
        find_released-Passed k ls r later rest
  ]

-- `Q` of the state that code leaves when it comes to its end.
abbrev pub Post : {S B : Type 0} → (S → Type 0) → Result B × S → Type 0
Post {B} Q r = (y : B) → r.0 ≡ ok y → Q r.1

module _ {S A B : Type 0} (Q : S → Type 0) where
  resume-Post :
      (r : Result A) (f : A → Exec S B) (s : S)
      → ((x : A) → r ≡ ok x → Post Q (f x s))
      → Post Q (resume r f s)
  resume-Post (ok x) f s h = h x refl
  resume-Post (err e) f s h = λ y k. cc

  pub >>=-Post :
      (m : Exec S A) (f : A → Exec S B) (s : S)
      → ((x : A) → (m s).0 ≡ ok x → Post Q (f x (m s).1))
      → Post Q ((m >>= f) s)
  >>=-Post m f s h = resume-Post (m s).0 f (m s).1 h

  pub >>-Post :
      (m : Exec S A) (k : Exec S B) (s : S)
      → ((x : A) → (m s).0 ≡ ok x → Post Q (k (m s).1))
      → Post Q ((m >> k) s)
  >>-Post m k s h = resume-Post (m s).0 (λ _. k) (m s).1 h
