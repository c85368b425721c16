-- ===== src/Stack/Cleanup.antt =====
-- What `Stack.cleanup` resets and what it leaves.
use btptester_core.Prelude.{◌≡◌, Option, none, some, arith, []}
use btptester_core.Gap
use btptester_core.Gatt
use btptester_core.Mesh
use btptester_core.Mesh.{Mesh}
use btptester_core.Stack.{Stack, cleanup}

-- a fresh part where there was one
abbrev pub renewed : {A : Type 0} → A → Option A → Option A
renewed fresh none = none
renewed fresh (some a) = some fresh

abbrev pub restarted : Mesh → Mesh
restarted m =
    Mesh.init m.dev_uuid m.static_auth m.output_size m.output_actions m.input_size m.input_actions
      m.crpl_size

-- `cleanup` gives the GAP, GATT server and L2CAP states, where there are any, their initial values, restarts a
-- Mesh node with the parameters that it had, and leaves everything else, the GATT client included.
pub cleanup_lem :
    (s : Stack)
    → cleanup s ≡ record s {
      gatt = renewed Gatt.init s.gatt;
      gap = renewed Gap.init s.gap;
      l2cap = renewed (record { channels = []; verify_values = [] }) s.l2cap;
      mesh = elim s.mesh [ none ↦ none | some m ↦ some (restarted m) ];
    }
unfolding cleanup
cleanup_lem s = ground arith
