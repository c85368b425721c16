-- ===== src/Events/Args.antt =====
-- What the event handlers are and what they return.
use btptester_core.Prelude.{ℕ, Text}
use btptester_core.Address.{BleAddress}
use btptester_core.Gap.{LeAdv, ConnParams}
use btptester_core.Stack.{Stack}
use btptester_core.Exec.{Exec}

-- The values that the listeners are shown; `nothing` is None.
pub data EvArgs : Type 0 where
  nothing : EvArgs
  found : LeAdv → EvArgs
  addr_params : BleAddress → ConnParams → EvArgs
  addr_tuple : BleAddress → EvArgs
  bare_addr : BleAddress → EvArgs
  addr_number : BleAddress → ℕ → EvArgs
  two_addrs : BleAddress → BleAddress → EvArgs
  notification : BleAddress → ℕ → ℕ → Text → EvArgs
  value_changed : ℕ → Text → EvArgs

-- A handler works on the stack and is given the payload of the event.
abbrev pub Handler : Type 0
Handler = Exec Stack EvArgs
