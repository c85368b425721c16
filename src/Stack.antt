-- ===== src/Stack.antt =====
-- stack/stack.py (and stack/l2cap.py): the parts that a test case has switched on.
pub mod Cleanup
use btptester_core.Prelude.{
  ℕ, Bool, true, false, Option, none, some, List, [], ◌∷◌, ◌++◌, Bytes, Text, if◌then◌else◌,
}
use btptester_core.Address.{BleAddress}
use btptester_core.Gap
use btptester_core.Gap.{Gap}
use btptester_core.Gatt
use btptester_core.Gatt.{Gatt}
use btptester_core.GattCl
use btptester_core.GattCl.{GattCl, Verify}
use btptester_core.Mesh
use btptester_core.Mesh.{Mesh}

-- The callbacks are functions of the test cases; what is kept of them is which are set, and the
-- calls that they have received.
pub data Call : Type 0 where
  pairing_consent : BleAddress → Call
  passkey_confirm : BleAddress → ℕ → Call

-- stack/l2cap.py
pub record L2cap : Type 0 where
  pub channels : List ℕ
  pub verify_values : List Verify

abbrev pub add_verify_values : L2cap → Verify → L2cap
add_verify_values l val = record l { verify_values = l.verify_values ++ val ∷ [] }

abbrev pub clear_verify_values : L2cap → L2cap
clear_verify_values l = record l { verify_values = [] }

-- channels.append(chan_id)
abbrev pub append_channel : L2cap → ℕ → L2cap
append_channel l chan_id = record l { channels = l.channels ++ chan_id ∷ [] }

-- `supported_svcs` is `none` for the number 0 that stands there at first.
pub record Stack : Type 0 where
  pub supported_svcs : Option Bytes
  pub has_pairing_consent_cb : Bool
  pub has_passkey_confirm_cb : Bool
  pub calls : List Call
  pub gap : Option Gap
  pub gatt : Option Gatt
  pub mesh : Option Mesh
  pub l2cap : Option L2cap
  pub gatt_cl : Option GattCl

-- Stack()
abbrev pub init : Stack
init = record {
  supported_svcs = none;
  has_pairing_consent_cb = false;
  has_passkey_confirm_cb = false;
  calls = [];
  gap = none;
  gatt = none;
  mesh = none;
  l2cap = none;
  gatt_cl = none;
}

abbrev pub gap_init : Stack → Stack
gap_init s = record s { gap = some Gap.init }

abbrev pub gatt_init : Stack → Stack
gatt_init s = record s { gatt = some Gatt.init }

abbrev pub l2cap_init : Stack → Stack
l2cap_init s = record s { l2cap = some (record { channels = []; verify_values = [] }) }

abbrev pub gatt_cl_init : Stack → Stack
gatt_cl_init s = record s { gatt_cl = some GattCl.init }

abbrev pub mesh_init : Text → Text → ℕ → ℕ → ℕ → ℕ → ℕ → Stack → Stack
mesh_init uuid oob output_size output_actions input_size input_actions crpl_size s = record s {
  mesh = some (Mesh.init uuid oob output_size output_actions input_size input_actions crpl_size);
}

unfoldable pub pairing_consent_cb : Stack → BleAddress → Stack
pairing_consent_cb s addr =
    if s.has_pairing_consent_cb
    then record s { calls = s.calls ++ pairing_consent addr ∷ [] }
    else s

unfoldable pub passkey_confirm_cb : Stack → BleAddress → ℕ → Stack
passkey_confirm_cb s addr match =
    if s.has_passkey_confirm_cb
    then record s { calls = s.calls ++ passkey_confirm addr match ∷ [] }
    else s

-- the four `if`s of `cleanup`, one after another
cleanup_gap : Stack → Stack
cleanup_gap s = elim s.gap [ none ↦ s | some _ ↦ gap_init s ]

cleanup_mesh : Stack → Stack
cleanup_mesh s = elim s.mesh [
  | none ↦ s
  | some m ↦
      mesh_init m.dev_uuid m.static_auth m.output_size m.output_actions m.input_size m.input_actions
        m.crpl_size s
]

cleanup_l2cap : Stack → Stack
cleanup_l2cap s = elim s.l2cap [ none ↦ s | some _ ↦ l2cap_init s ]

cleanup_gatt : Stack → Stack
cleanup_gatt s = elim s.gatt [ none ↦ s | some _ ↦ gatt_init s ]

-- `cleanup` does not touch `gatt_cl`
unfoldable pub cleanup : Stack → Stack
unfolding cleanup_gap cleanup_mesh cleanup_l2cap cleanup_gatt
cleanup s = cleanup_gatt (cleanup_l2cap (cleanup_mesh (cleanup_gap s)))
