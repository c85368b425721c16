-- ===== src/Commands/Replies.antt =====
-- Responses to commands and events are told apart by their opcodes; and the responses of the core
-- service.
use btptester_core.Prelude.{
  ℕ, ◌≡◌, refl, List, [], ◌∷◌, ◌++◌, All, Bool, true, false, String, arith, not, ◌&&◌,
}
use btptester_core.Result.{err, btp_error, socket_timeout}
use btptester_core.Worker.{World, read}
use btptester_core.Worker.Rx.{is_event}
use btptester_core.Commands.Table.{Cmd}
use btptester_core.Commands.Table.Core.{core}
use btptester_core.Commands.Table.Gap.{gap}
use btptester_core.Commands.Table.Gatts.{gatts}
use btptester_core.Commands.Table.Gattc.{gattc}
use btptester_core.Commands.Table.L2cap.{l2cap}
use btptester_core.Commands.Table.Mesh.{mesh}
use btptester_core.Commands.Table.GattCl.{gatt_cl}
use btptester_core.Commands.Core.{core_unreg_svc_rsp_succ}

abbrev pub commands : List (String × Cmd)
commands = core ++ gap ++ gatts ++ gattc ++ l2cap ++ mesh ++ gatt_cl

abbrev pub IsResponse : ℕ → ℕ → String × Cmd → Type 0
IsResponse index n (key, (svc, op, ctrl, p)) =
    is_event (record { svc_id = svc; op = op; ctrl_index = index; data_len = n }) ≡ false

no_events : ℕ → ℕ → List (String × Cmd) → Bool
no_events index n [] = true
no_events index n ((key, (svc, op, ctrl, p)) ∷ l) =
    not (is_event (record { svc_id = svc; op = op; ctrl_index = index; data_len = n }))
    && no_events index n l

All-IsResponse :
    (index n : ℕ) (l : List (String × Cmd))
    → no_events index n l ≡ true
    → All (IsResponse index n) l
unfolding no_events
All-IsResponse index n [] h = tt
All-IsResponse index n ((key, (svc, op, ctrl, p)) ∷ l) h =
    ground (arith, All-IsResponse index n l, h)

-- A response that carries the service and the opcode of a command of the seven tables, with any
-- controller index and length, is never taken for an event.
pub commands-IsResponse : (index n : ℕ) → All (IsResponse index n) commands
unfolding no_events is_event
commands-IsResponse index n = All-IsResponse index n commands refl

-- Whatever the device answers, the check of the response to an unregistration raises: BTPError on
-- every frame, and socket.timeout if none comes.
pub core_unreg_svc_rsp_succ_raises :
    (w : World)
    → (core_unreg_svc_rsp_succ w).0
      ≡ elim w.rx_queue [ [] ↦ err socket_timeout | f ∷ later ↦ err btp_error ]
unfolding core_unreg_svc_rsp_succ read
core_unreg_svc_rsp_succ_raises w = ground arith
