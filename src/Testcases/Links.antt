-- ===== src/Testcases/Links.antt =====
-- What the procedures assert of the links of the two devices, and what their waits have brought.
use btptester_core.Prelude.{
  ℕ, ◌≡◌, refl, sym, ◌∙◌, arith, Bool, true, false, none, some, Option-cases, subst, inl, inr, List,
  ◌∷◌,
}
use btptester_core.Result.{Result, ok}
use btptester_core.Address.{BleAddress}
use btptester_core.Gap.{Gap, is_connected, iut_addr_set}
use btptester_core.Events.Args.{EvArgs}
use btptester_core.Testcases.Bench.{
  Bench, Side, iut1, iut2, Future, iut, put_iut, wait_futures, assert_true,
}
use btptester_core.Testcases.Procedures.{assert_connected, set_iut_addr, agrees}
use btptester_core.Testcases.Steps.{Good}
use btptester_core.Testcases.Heard.{Answered, wait_futures-Answered}
use btptester_core.Testcases.Verdicts.{Made}

-- What the tester knows of the links of a device.
abbrev pub HasLink : Bool → Side → Bench → Type 0
HasLink wanted x b =
    (g : Gap) × ((iut x b).world.stack.gap ≡ some g) × (is_connected g none ≡ wanted)

agrees-true : (wanted b : Bool) → agrees wanted b ≡ true → b ≡ wanted
agrees-true true b h = h
agrees-true false true h = cc
agrees-true false false h = refl

assert_connected-ok :
    (wanted : Bool) (x : Side) (b : Bench) (u : Unit {0})
    → (assert_connected wanted x b).0 ≡ ok u
    → HasLink wanted x b × ((assert_connected wanted x b).1 ≡ b)
unfolding assert_connected assert_true
assert_connected-ok wanted x b u h = elim (Option-cases (iut x b).world.stack.gap) [
  | inl n ↦ absurd (ground arith)
  | inr (g, y) ↦ ((g, y, ground (arith, agrees-true wanted (is_connected g none))), ground arith)
]

set_iut_addr-HasLink :
    (wanted : Bool) (x y : Side) (a : BleAddress) (b : Bench)
    → HasLink wanted x b
    → HasLink wanted x (set_iut_addr y a b).1
unfolding iut put_iut is_connected
set_iut_addr-HasLink wanted iut1 iut1 a b (g, e, c) = (iut_addr_set g a, ground arith, c)
set_iut_addr-HasLink wanted iut1 iut2 a b (g, e, c) = (g, ground arith, c)
set_iut_addr-HasLink wanted iut2 iut1 a b (g, e, c) = (g, ground arith, c)
set_iut_addr-HasLink wanted iut2 iut2 a b (g, e, c) = (iut_addr_set g a, ground arith, c)

-- What both procedures end with: the wait and the two assertions.
module _ (wanted : Bool) (x y : Side) where
  abbrev pub BothLinks : Bench → Type 0
  BothLinks b = HasLink wanted x b × HasLink wanted y b

  pub asserted :
      (b : Bench)
      → (u v : Unit {0}) → (assert_connected wanted x b).0 ≡ ok u
      → (assert_connected wanted y (assert_connected wanted x b).1).0 ≡ ok v
      → HasLink wanted x b
        × HasLink wanted y b
        × ((assert_connected wanted y (assert_connected wanted x b).1).1 ≡ b)
  asserted b u v h k =
      let (here, same) = assert_connected-ok wanted x b u h in
      let (there, same') = assert_connected-ok wanted y (assert_connected wanted x b).1 v k in
      (here, subst (HasLink wanted y) same there, same' ∙ same)

pub set_both :
    (wanted : Bool) (x y z : Side) (a : BleAddress) (b : Bench)
    → BothLinks wanted x y b
    → BothLinks wanted x y (set_iut_addr z a b).1
set_both wanted x y z a b (here, there) =
    (set_iut_addr-HasLink wanted x z a b here, set_iut_addr-HasLink wanted y z a b there)

-- a future that is known is waited for
pub waited-Answered :
    (x : Side) (n : ℕ) (f : EvArgs → Result Bool) (m : ℕ) (b : Bench) (future : Future)
    (others : List Future) (u : Unit {0})
    → Good (Made n f) m x b
    → ok future ≡ ok (record { side = x; number = n })
    → (wait_futures (future ∷ others) b).0 ≡ ok u
    → Answered x n f (wait_futures (future ∷ others) b).1
waited-Answered x n f m b future others u g is =
    let known : future ≡ record { side = x; number = n } = cc in
    subst
      (λ k. (wait_futures (k ∷ others) b).0 ≡ ok u → Answered x n f (wait_futures (k ∷ others) b).1)
      (sym known) (wait_futures-Answered x n f m b others u g)
