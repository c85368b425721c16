-- ===== src/Commands/Gattc/Selected.antt =====
-- The service that `gattc_disc_all_chrc` takes from those that are stored.
use btptester_core.Prelude.{
  ℕ, zero, suc, ◌≡◌, refl, Option, none, some, List, [], ◌∷◌, Text, arith, if◌then◌else◌,
}
use btptester_core.Address.{BleAddress}
use btptester_core.Gatt.{Gatt}
use btptester_core.GattDb.Handles.{Handle}
use btptester_core.Worker.{World}
use btptester_core.Commands.Gattc.{
  ExpSvc, passes, nth_svc, range_of, search_range, gattc_disc_all_chrc,
}

abbrev pub Svc : Type 0
Svc = Handle × Handle × Text

-- the services that pass, in order
unfoldable pub passing : ExpSvc → List Svc → List Svc
unfolding passes
passing exp [] = []
passing exp (s ∷ svcs) = let rest = passing exp svcs in if passes exp s then s ∷ rest else rest

-- the n-th, counted from 0
abbrev pub nth : ℕ → List Svc → Option Svc
nth n [] = none
nth zero (s ∷ svcs) = some s
nth (suc n) (s ∷ svcs) = nth n svcs

nth_svc-cons :
    (exp : ExpSvc) (n : ℕ) (s : Svc) (svcs : List Svc)
    → ((m : ℕ) → nth_svc exp (suc m) svcs ≡ nth m (passing exp svcs))
    → nth_svc exp (suc n) (s ∷ svcs) ≡ nth n (passing exp (s ∷ svcs))
unfolding nth_svc passing
nth_svc-cons exp zero s svcs h = ground (arith, h 0)
nth_svc-cons exp (suc n) s svcs h = ground (arith, h (suc n), h n)

nth_svc-passing :
    (exp : ExpSvc) (svcs : List Svc) (n : ℕ) → nth_svc exp (suc n) svcs ≡ nth n (passing exp svcs)
unfolding nth_svc passing
nth_svc-passing exp [] n = refl
nth_svc-passing exp (s ∷ svcs) n = nth_svc-cons exp n s svcs (nth_svc-passing exp svcs)

-- `gattc_disc_all_chrc` with a wanted service and a number n from 1 does what it does without one
-- for the handles of the n-th stored service that passes the test, counted in order, and for the
-- handles that it was given where fewer pass.
pub gattc_disc_all_chrc-nth :
    (bd_addr : BleAddress) (start stop : Handle) (exp : ExpSvc) (n : ℕ) (g : Gatt) (w : World)
    → w.stack.gatt ≡ some g
    → let (s, e) = range_of start stop (nth n (passing exp g.svcs)) in
      gattc_disc_all_chrc bd_addr start stop (some (exp, suc n)) w
      ≡ gattc_disc_all_chrc bd_addr s e none w
unfolding gattc_disc_all_chrc search_range
gattc_disc_all_chrc-nth bd_addr start stop exp n g w h =
    ground (arith, nth_svc-passing exp g.svcs n, h)
