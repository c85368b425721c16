-- ===== src/Testcases/Bench.antt =====
-- The two devices of a test case (testcases/BTPTestCase.py, the control classes of projects/ as
-- far as the tests use them) and how a test runs against what the devices send.
use btptester_core.Prelude.{
  ℕ, suc, Bool, true, false, ◌&&◌, Option, none, some, List, [], ◌∷◌, Bytes, ◌==◌, if◌then◌else◌,
}
use btptester_core.Result.{Result, ok, err, attribute_error, assertion_error, timeout_error}
use btptester_core.Parser.{Header}
use btptester_core.Address.{BleAddress}
use btptester_core.Dict.{Dict}
use btptester_core.Gap.{Gap, unset, address}
use btptester_core.Stack.{Stack}
use btptester_core.Exec.{Exec, lift, of_option, modify, ◌>>=◌, ◌>>◌}
use btptester_core.Worker.{World, Btp}
use btptester_core.Worker.Rx.{RxWorker, rx_task}
use btptester_core.Events.Args.{EvArgs}
use btptester_core.Events.Handler.Listeners.{BtpEventListener, BtpEventHandler, EvKey}

-- get_type()
pub data IutType : Type 0 where
  android mynewt : IutType

-- A device under test with its worker and its event handler, which share the stack. `submitted`
-- counts the futures that were made; a future is known by its number.
pub record Iut : Type 0 where
  pub id : ℕ
  pub type : IutType
  pub world : World
  pub listeners : Dict EvKey (List BtpEventListener)
  pub released : List BtpEventListener
  pub submitted : ℕ
  pub alive : Bool

-- self.iut1 and self.iut2
pub data Side : Type 0 where
  iut1 iut2 : Side

-- `arrivals` holds, for one step of the test after another, the frames that the two devices have
-- sent by then. `reorder` is the order that sets of listeners happen to have.
pub record Bench : Type 0 where
  pub first : Iut
  pub second : Iut
  pub arrivals : List (List (Header × Bytes) × List (Header × Bytes))
  pub reorder : List BtpEventListener → List BtpEventListener

abbrev pub Test : Type 0 → Type 0
Test A = Exec Bench A

unfoldable pub iut : Side → Bench → Iut
iut iut1 b = b.first
iut iut2 b = b.second

unfoldable pub put_iut : Side → Iut → Bench → Bench
put_iut iut1 i b = record b { first = i }
put_iut iut2 i b = record b { second = i }

-- The event handler of a device, and a device with its handler changed.
unfoldable pub handler_of : Iut → BtpEventHandler
handler_of i = record { stack = some i.world.stack; listeners = i.listeners; released = i.released }

abbrev stack_or : Stack → Option Stack → Stack
stack_or s none = s
stack_or s (some t) = t

unfoldable pub with_handler : BtpEventHandler → Iut → Iut
with_handler h i = record i {
  world = record i.world { stack = stack_or i.world.stack h.stack };
  listeners = h.listeners;
  released = h.released;
}

-- The receiving thread of a device on the frames that arrive.
abbrev pub absorb : RxWorker → Iut → Option BtpEventHandler → Iut
absorb w i none = i
absorb w i (some h) =
    let i' = with_handler h i in
    record i' { world = record i'.world { rx_queue = w.rx_queue }; alive = w.alive }

-- The device as its receiving thread sees it, and back.
abbrev pub loaded : Iut → RxWorker
unfolding handler_of
loaded i = record { rx_queue = i.world.rx_queue; handler = some (handler_of i); alive = i.alive }

abbrev pub unloaded : RxWorker → Iut → Iut
unfolding with_handler
unloaded w i = absorb w i w.handler

unfoldable pub receive :
    (List BtpEventListener → List BtpEventListener) → List (Header × Bytes) → Iut → Iut
unfolding handler_of with_handler loaded unloaded
receive reorder frames i = unloaded (rx_task reorder frames (loaded i)) i

abbrev pub arrive : List (List (Header × Bytes) × List (Header × Bytes)) → Bench → Bench
arrive [] b = b
arrive ((at_first, at_second) ∷ later) b = record b {
  first = receive b.reorder at_first b.first;
  second = receive b.reorder at_second b.second;
  arrivals = later;
}

-- What the receiving threads do until the next step of the test.
unfoldable pub pause : Test (Unit {0})
unfolding receive
pause b = (ok tt, arrive b.arrivals b)

abbrev pub in_world : {A : Type 0} → Side → Bench → Result A × World → Result A × Bench
in_world x b (r, w) = (r, put_iut x (record (iut x b) { world = w }) b)

-- A command to one of the devices.
unfoldable pub on : {A : Type 0} → Side → Btp A → Test A
unfolding pause iut put_iut
on x command = do pause; λ b. in_world x b (command (iut x b).world)

abbrev pub stack_of : Side → Test Stack
stack_of x b = (ok (iut x b).world.stack, b)

abbrev pub modify_stack : Side → (Stack → Stack) → Test (Unit {0})
modify_stack x f = modify λ b.
    let i = iut x b in put_iut x (record i { world = record i.world { stack = f i.world.stack } }) b

-- iut.stack.gap, where an attribute of it is used next
abbrev pub gap_of : Side → Test Gap
gap_of x = do s ← stack_of x; of_option s.gap

-- iut.stack.gap.iut_addr_get(), for an address that is used next: a Property is none
unfoldable pub iut_addr_get : Side → Test BleAddress
unfolding iut
iut_addr_get x = do
  g ← gap_of x
  lift (elim g.iut_bd_addr [ unset ↦ err attribute_error | address a ↦ ok a ])

-- A future of the event handler of a device.
pub record Future : Type 0 where
  pub side : Side
  pub number : ℕ

-- One of the waits for events.
abbrev pub Wait : Type 0
Wait = ℕ → Option (EvArgs → Result Bool) → BtpEventHandler → BtpEventHandler

-- The device with one more listener.
unfoldable pub enlist : Wait → Option (EvArgs → Result Bool) → Iut → Iut
unfolding handler_of with_handler
enlist wait verify_f i =
    let i' = with_handler (wait i.submitted verify_f (handler_of i)) i in
    record i' { submitted = suc i.submitted }

-- A wait makes a listener and a future.
unfoldable pub listen : Side → Wait → Option (EvArgs → Result Bool) → Test Future
unfolding pause iut put_iut enlist
listen x wait verify_f = do
  pause
  λ b. (
    ok (record { side = x; number = (iut x b).submitted }),
    put_iut x (enlist wait verify_f (iut x b)) b,
  )

-- the first release of a listener resolves its future
unfoldable pub find_released : ℕ → List BtpEventListener → Option (Option EvArgs)
find_released n [] = none
find_released n (l ∷ ls) = if l.waiter == n then some l.result else find_released n ls

unfoldable pub resolved : Bench → Future → Option (Option EvArgs)
unfolding iut find_released
resolved b f = find_released f.number (iut f.side b).released

abbrev is_done : Option (Option EvArgs) → Bool
is_done none = false
is_done (some r) = true

unfoldable pub all_done : Bench → List Future → Bool
unfolding resolved
all_done b [] = true
all_done b (f ∷ fs) = is_done (resolved b f) && all_done b fs

-- `wait_futures` of pybtp/utils.py: TimeoutError if one is not done in time
unfoldable pub wait_futures : List Future → Test (Unit {0})
unfolding pause all_done
wait_futures fs = do pause; λ b. (if all_done b fs then ok tt else err timeout_error, b)

-- future.result(), which is only called on a future that is done
unfoldable pub result : Future → Test (Option EvArgs)
unfolding resolved
result f b = (elim (resolved b f) [ none ↦ err timeout_error | some r ↦ ok r ], b)

-- self.assertTrue(test), and the assertions that compare or look for None
abbrev pub check : Bool → Result (Unit {0})
check true = ok tt
check false = err assertion_error

unfoldable pub assert_true : Bool → Test (Unit {0})
assert_true test = lift (check test)

-- self.assertIsNotNone(x), and the value of x from there on
unfoldable pub assert_is_not_none : {A : Type 0} → Option A → Test A
assert_is_not_none x = lift (elim x [ none ↦ err assertion_error | some a ↦ ok a ])
