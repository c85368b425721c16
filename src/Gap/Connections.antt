-- ===== src/Gap/Connections.antt =====
-- Theorems on the connection operations of stack/gap.py.
use btptester_core.Prelude.{
  ◌≡◌, ◌↔◌, true, false, Option, some, List, [], ◌∷◌, arith, if◌then◌else◌, refl, All,
}
use btptester_core.Result.{ok, err, key_error}
use btptester_core.Address.{BleAddress, ble_eq}
use btptester_core.Dict
use btptester_core.Dict.{ble_address_eq}
use btptester_core.Gap.{
  Gap, connected, disconnected, is_connected, wait_for_connection, wait_for_disconnection,
}

-- After `connected(addr)`, a device is connected when it is that address or was connected before.
pub is_connected-connected :
    (g : Gap) (addr other : BleAddress)
    → is_connected (connected g addr) (some other)
      ≡ (if ble_eq addr other then true else is_connected g (some other))
unfolding is_connected connected
is_connected-connected g addr other =
    ground (arith, Dict.get-put g.connections addr other (record { addr = addr }))

-- `disconnected(addr)` raises KeyError exactly when that address is not connected.
pub disconnected_error_iff :
    (g : Gap) (addr : BleAddress)
    → (disconnected g addr ≡ err key_error) ↔ (is_connected g (some addr) ≡ false)
unfolding is_connected disconnected
disconnected_error_iff g addr = ground arith

-- A device that was not connected, connects and disconnects leaves the object exactly as it was,
-- the order of the other connections included.
pub disconnected-connected :
    (g : Gap) (addr : BleAddress)
    → is_connected g (some addr) ≡ false
    → disconnected (connected g addr) addr ≡ ok g
unfolding is_connected connected disconnected
disconnected-connected g addr h = ground (
  arith,
  Dict.get-put g.connections addr addr (record { addr = addr }),
  Dict.remove-put_new g.connections addr (record { addr = addr }),
  Dict.beq_refl addr,
)

-- Whichever way a disconnect ends well, the address is not connected afterwards and the other
-- devices are connected exactly as before.
pub is_connected-disconnected :
    (g after : Gap) (addr other : BleAddress)
    → disconnected g addr ≡ ok after
    → is_connected after (some other)
      ≡ (if ble_eq addr other then false else is_connected g (some other))
unfolding is_connected disconnected
is_connected-disconnected g after addr other h =
    ground (arith, Dict.get-remove g.connections addr other)

connection_false :
    (addr : Option BleAddress) (now : Gap) (later : List Gap)
    → wait_for_connection addr now later ≡ false
    → All (λ g. is_connected g addr ≡ false) (now ∷ later)
unfolding wait_for_connection
connection_false addr now [] h = (h, tt)
connection_false addr now (g ∷ later) h = ground (arith, connection_false addr g later)

connection_false_back :
    (addr : Option BleAddress) (now : Gap) (later : List Gap)
    → All (λ g. is_connected g addr ≡ false) (now ∷ later)
    → wait_for_connection addr now later ≡ false
unfolding wait_for_connection
connection_false_back addr now [] (h, t) = h
connection_false_back addr now (g ∷ later) (h, t) =
    ground (arith, h, connection_false_back addr g later t)

disconnection_false :
    (addr : Option BleAddress) (now : Gap) (later : List Gap)
    → wait_for_disconnection addr now later ≡ false
    → All (λ g. is_connected g addr ≡ true) (now ∷ later)
unfolding wait_for_disconnection
disconnection_false addr now [] h = (ground arith, tt)
disconnection_false addr now (g ∷ later) h = ground (arith, disconnection_false addr g later)

disconnection_false_back :
    (addr : Option BleAddress) (now : Gap) (later : List Gap)
    → All (λ g. is_connected g addr ≡ true) (now ∷ later)
    → wait_for_disconnection addr now later ≡ false
unfolding wait_for_disconnection
disconnection_false_back addr now [] (h, t) = rw h refl
disconnection_false_back addr now (g ∷ later) (h, t) =
    ground (arith, h, disconnection_false_back addr g later t)

-- `wait_for_connection` fails exactly if no look finds the connection, the first and the last one
-- included; `wait_for_disconnection` fails exactly if every look finds it.
pub wait_for_connection-false_iff :
    (addr : Option BleAddress) (now : Gap) (later : List Gap)
    → ((wait_for_connection addr now later ≡ false)
        ↔ All (λ g. is_connected g addr ≡ false) (now ∷ later))
      × ((wait_for_disconnection addr now later ≡ false)
          ↔ All (λ g. is_connected g addr ≡ true) (now ∷ later))
wait_for_connection-false_iff addr now later = (
  (connection_false addr now later, connection_false_back addr now later),
  (disconnection_false addr now later, disconnection_false_back addr now later),
)
