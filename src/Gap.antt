-- ===== src/Gap.antt =====
-- stack/gap.py: what the tester knows of the GAP service of the device under test.
pub mod Connections
pub mod Settings
use btptester_core.Prelude.{
  ℕ, Bool, true, false, not, Option, none, some, List, [], ◌∷◌, ◌++◌, String, Bytes, Text, ltb,
  length, ◌==◌, if◌then◌else◌,
}
use btptester_core.Result.{Result, ok, err, key_error, attribute_error}
use btptester_core.Address.{BleAddress}
use btptester_core.Dict
use btptester_core.Dict.{Dict, string_eq, ble_address_eq}

-- LeAdv
pub record LeAdv : Type 0 where
  pub addr : BleAddress
  pub rssi : ℕ
  pub flags : ℕ
  pub eir : Bytes

pub record ConnParams : Type 0 where
  pub conn_itvl : ℕ
  pub conn_latency : ℕ
  pub supervision_timeout : ℕ

pub record Connection : Type 0 where
  pub addr : BleAddress

-- `iut_bd_addr` holds a Property until `iut_addr_set` puts an address there.
pub data IutAddr : Type 0 where
  unset : IutAddr
  address : BleAddress → IutAddr

-- The fields that hold a Property keep its `data`.
pub record Gap : Type 0 where
  pub name : Option Text
  pub name_short : Option Text
  pub connections : Dict BleAddress Connection
  pub current_settings : Dict String Bool
  pub iut_bd_addr : IutAddr
  pub discoverying : Bool
  pub found_devices : List LeAdv
  pub passkey : Option ℕ
  pub conn_params : Option ConnParams

abbrev pub initial_settings : Dict String Bool
initial_settings =
    ("Powered", false)
    ∷ ("Connectable", false)
    ∷ ("Fast Connectable", false)
    ∷ ("Discoverable", false)
    ∷ ("Bondable", false)
    ∷ ("Link Level Security", false)
    ∷ ("SSP", false)
    ∷ ("BREDR", false)
    ∷ ("HS", false)
    ∷ ("LE", false)
    ∷ ("Advertising", false)
    ∷ ("SC", false)
    ∷ ("Debug Keys", false)
    ∷ ("Privacy", false)
    ∷ ("Controller Configuration", false)
    ∷ ("Static Address", false)
    ∷ []

-- Gap()
abbrev pub init : Gap
init = record {
  name = none;
  name_short = none;
  connections = [];
  current_settings = initial_settings;
  iut_bd_addr = unset;
  discoverying = false;
  found_devices = [];
  passkey = none;
  conn_params = none;
}

unfoldable pub connected : Gap → BleAddress → Gap
connected g addr = record g { connections = Dict.put g.connections addr (record { addr = addr }) }

-- `pop(addr)` raises KeyError for an address that is not there
unfoldable pub disconnected : Gap → BleAddress → Result Gap
disconnected g addr = elim (Dict.get g.connections addr) [
  | none ↦ err key_error
  | some _ ↦ ok (record g { connections = Dict.remove g.connections addr })
]

-- is_connected(addr=None)
unfoldable pub is_connected : Gap → Option BleAddress → Bool
is_connected g none = ltb 0 (length g.connections)
is_connected g (some addr) = Dict.has_key g.connections addr

-- `wait_for_connection` and `wait_for_disconnection`: the first look, then one look after
-- another until the timer clears the flag. Other threads change the object meanwhile, so the
-- states that the looks find are arguments.
unfoldable pub wait_for_connection : Option BleAddress → Gap → List Gap → Bool
unfolding is_connected
wait_for_connection addr now [] = is_connected now addr
wait_for_connection addr now (g ∷ later) =
    let rest = wait_for_connection addr g later in
    elim (is_connected now addr) [ true ↦ true | false ↦ rest ]

unfoldable pub wait_for_disconnection : Option BleAddress → Gap → List Gap → Bool
unfolding is_connected
wait_for_disconnection addr now [] = not (is_connected now addr)
wait_for_disconnection addr now (g ∷ later) =
    let rest = wait_for_disconnection addr g later in
    elim (is_connected now addr) [ false ↦ true | true ↦ rest ]

-- A key that is not there is logged, and nothing changes.
unfoldable pub current_settings_set : Gap → String → Gap
current_settings_set g key = elim (Dict.has_key g.current_settings key) [
  | true ↦ record g { current_settings = Dict.put g.current_settings key true }
  | false ↦ g
]

unfoldable pub current_settings_clear : Gap → String → Gap
current_settings_clear g key = elim (Dict.has_key g.current_settings key) [
  | true ↦ record g { current_settings = Dict.put g.current_settings key false }
  | false ↦ g
]

unfoldable pub current_settings_get : Gap → String → Bool
current_settings_get g key = elim (Dict.get g.current_settings key) [ none ↦ false | some b ↦ b ]

abbrev pub iut_addr_set : Gap → BleAddress → Gap
iut_addr_set g addr = record g { iut_bd_addr = address addr }

unfoldable pub iut_has_privacy : Gap → Bool
unfolding current_settings_get
iut_has_privacy g = current_settings_get g "Privacy"

-- identity_resolved: `pass`
abbrev pub identity_resolved : Gap → BleAddress → BleAddress → Gap
identity_resolved g ota_addr id_addr = g

abbrev pub set_conn_params : Gap → ConnParams → Gap
set_conn_params g params = record g { conn_params = some params }

abbrev pub reset_discovery : Gap → Gap
reset_discovery g = record g { discoverying = true; found_devices = [] }

abbrev pub get_conn_params : Gap → Option ConnParams
get_conn_params g = g.conn_params

-- `self.iut_bd_addr.addr`, which a Property does not have
unfoldable pub iut_addr_get_str : Gap → Result Text
iut_addr_get_str g = elim g.iut_bd_addr [ unset ↦ err attribute_error | address a ↦ ok a.addr ]

unfoldable pub iut_addr_get_type : Gap → Result ℕ
iut_addr_get_type g = elim g.iut_bd_addr [
  | unset ↦ err attribute_error
  | address a ↦ ok a.addr_type
]

-- the looks while the timer runs; a passkey of 0 does not end them
unfoldable pub await_passkey : Gap → List Gap → Option ℕ
await_passkey g [] = g.passkey
await_passkey g (h ∷ later) =
    let rest = await_passkey h later in
    elim g.passkey [ none ↦ rest | some p ↦ if p == 0 then rest else some p ]

-- `get_passkey`: the first look, then the states that the looks find
unfoldable pub get_passkey : Gap → List Gap → Option ℕ
unfolding await_passkey
get_passkey now [] = now.passkey
get_passkey now (g ∷ later) =
    let rest = await_passkey g later in elim now.passkey [ none ↦ rest | some p ↦ some p ]
