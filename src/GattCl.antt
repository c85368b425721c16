-- ===== src/GattCl.antt =====
-- stack/gatt_cl.py: what the tester knows of the GATT client of the device under test.
use btptester_core.Prelude.{
  ℕ, Bool, true, false, Option, none, some, List, [], String, Text, length, leb, ltb, ◌==◌,
  if◌then◌else◌,
}
use btptester_core.Address.{BleAddress}
use btptester_core.GattDb.{GattDb}
use btptester_core.GattDb.Handles.{Handle}

-- What the handlers put into `verify_values`: the text of an ATT response, or hexadecimal digits.
pub data Verify : Type 0 where
  str : String → Verify
  digits : Text → Verify

-- The tests that `set_event_to_await` is given.
pub data Awaited : Type 0 where
  read_complete write_completed : Awaited

pub record GattCl : Type 0 where
  pub db : GattDb
  pub verify_values : List Verify
  pub prim_svcs_cnt : Option ℕ
  pub prim_svcs : List (Handle × Handle × Text)
  pub incl_svcs_cnt : Option ℕ
  pub incl_svcs : List (Handle × Handle × Handle × Text)
  pub chrcs_cnt : Option ℕ
  pub chrcs : List (ℕ × Text)
  pub dscs_cnt : Option ℕ
  pub dscs : List (ℕ × Text)
  pub notifications : List (BleAddress × ℕ × ℕ × Text)
  pub write_status : Option ℕ
  pub event_to_await : Option Awaited

-- GattCl()
abbrev pub init : GattCl
init = record {
  db = [];
  verify_values = [];
  prim_svcs_cnt = none;
  prim_svcs = [];
  incl_svcs_cnt = none;
  incl_svcs = [];
  chrcs_cnt = none;
  chrcs = [];
  dscs_cnt = none;
  dscs = [];
  notifications = [];
  write_status = none;
  event_to_await = none;
}

-- `cnt <= 0` on a count that is never negative
unfoldable pub is_procedure_done {ℓ} : {A : Type ℓ} → List A → Option ℕ → Bool
is_procedure_done l none = false
is_procedure_done l (some cnt) = if leb cnt 0 then true else length l == cnt

unfoldable pub is_prim_disc_complete : GattCl → Bool
unfolding is_procedure_done
is_prim_disc_complete c = is_procedure_done c.prim_svcs c.prim_svcs_cnt

unfoldable pub is_incl_disc_complete : GattCl → Bool
unfolding is_procedure_done
is_incl_disc_complete c = is_procedure_done c.incl_svcs c.incl_svcs_cnt

unfoldable pub is_chrcs_disc_complete : GattCl → Bool
unfolding is_procedure_done
is_chrcs_disc_complete c = is_procedure_done c.chrcs c.chrcs_cnt

unfoldable pub is_dscs_disc_complete : GattCl → Bool
unfolding is_procedure_done
is_dscs_disc_complete c = is_procedure_done c.dscs c.dscs_cnt

-- self.verify_values != []
unfoldable pub is_read_complete : GattCl → Bool
is_read_complete c = ltb 0 (length c.verify_values)

unfoldable pub is_write_completed : GattCl → Bool
is_write_completed c = elim c.write_status [ none ↦ false | some s ↦ true ]

unfoldable pub is_notification_rxed : GattCl → ℕ → Bool
is_notification_rxed c expected_count =
    if ltb 0 expected_count
    then length c.notifications == expected_count
    else ltb 0 (length c.notifications)
