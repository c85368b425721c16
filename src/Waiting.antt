-- ===== src/Waiting.antt =====
-- `wait_for_event` of stack/common.py, and the waits of stack/gatt_cl.py that call it.
use btptester_core.Prelude.{ℕ, Bool, true, false, none, some, List, [], ◌∷◌}
use btptester_core.Result.{Result, ok, err, run_end, type_error}
use btptester_core.GattCl.{
  GattCl, read_complete, write_completed, is_prim_disc_complete, is_incl_disc_complete,
  is_chrcs_disc_complete, is_dscs_disc_complete, is_read_complete, is_write_completed,
  is_notification_rxed,
}

-- What a look of the loop finds: whether the end of the run was asked for, and the object.
abbrev pub Look : Type 0 → Type 0
Look S = Bool × S

module _ {S : Type 0} (test : S → Bool) where
  -- the looks until the timer clears the flag
  unfoldable pub poll : List (Look S) → Result Bool
  poll [] = ok false
  poll ((true, s) ∷ later) = err run_end
  poll ((false, s) ∷ later) =
      let rest = poll later in elim (test s) [ true ↦ ok true | false ↦ rest ]

  -- `wait_for_event`: the first look is before the timer and does not mind the end of the run
  unfoldable pub wait_for_event : S → List (Look S) → Result Bool
  unfolding poll
  wait_for_event now later = elim (test now) [ true ↦ ok true | false ↦ poll later ]

module _ (now : GattCl) (later : List (Look GattCl)) where
  unfoldable pub wait_for_prim_svcs : Result Bool
  unfolding wait_for_event
  wait_for_prim_svcs = wait_for_event is_prim_disc_complete now later

  unfoldable pub wait_for_incl_svcs : Result Bool
  unfolding wait_for_event
  wait_for_incl_svcs = wait_for_event is_incl_disc_complete now later

  unfoldable pub wait_for_chrcs : Result Bool
  unfolding wait_for_event
  wait_for_chrcs = wait_for_event is_chrcs_disc_complete now later

  unfoldable pub wait_for_descs : Result Bool
  unfolding wait_for_event
  wait_for_descs = wait_for_event is_dscs_disc_complete now later

  unfoldable pub wait_for_read : Result Bool
  unfolding wait_for_event
  wait_for_read = wait_for_event is_read_complete now later

  unfoldable pub wait_for_write_rsp : Result Bool
  unfolding wait_for_event
  wait_for_write_rsp = wait_for_event is_write_completed now later

  unfoldable pub wait_for_notifications : ℕ → Result Bool
  unfolding wait_for_event
  wait_for_notifications expected_count =
      wait_for_event (λ c. is_notification_rxed c expected_count) now later

  -- `self.event_to_await` is looked up once, before the wait; None cannot be called
  unfoldable pub wait_for_rsp_event : Result Bool
  unfolding wait_for_event
  wait_for_rsp_event = elim now.event_to_await [
    | none ↦ err type_error
    | some read_complete ↦ wait_for_event is_read_complete now later
    | some write_completed ↦ wait_for_event is_write_completed now later
  ]
