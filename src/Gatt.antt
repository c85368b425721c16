-- ===== src/Gatt.antt =====
-- The class `Gatt` of stack/gatt.py: what the tester keeps for its GATT server tests. `gatt_db`,
-- `debug` and the functions on them are not used by the program.
use btptester_core.Prelude.{ℕ, List, [], ◌∷◌, ◌++◌, String, Text, Option, none}
use btptester_core.GattDb.Handles.{Handle}
use btptester_core.GattCl.{Verify}

pub record Gatt : Type 0 where
  pub verify_values : List Verify
  pub svcs : List (Handle × Handle × Text)
  pub chrs : List (Handle × Handle × ℕ × Text)

-- Gatt()
abbrev pub init : Gatt
init = record { verify_values = []; svcs = []; chrs = [] }

abbrev pub add_verify_values : Gatt → Verify → Gatt
add_verify_values g val = record g { verify_values = g.verify_values ++ val ∷ [] }

abbrev pub clear_verify_values : Gatt → Gatt
clear_verify_values g = record g { verify_values = [] }

abbrev pub add_svcs : Gatt → Handle × Handle × Text → Gatt
add_svcs g val = record g { svcs = g.svcs ++ val ∷ [] }

abbrev pub clear_svcs : Gatt → Gatt
clear_svcs g = record g { svcs = [] }

abbrev pub add_chrs : Gatt → Handle × Handle × ℕ × Text → Gatt
add_chrs g val = record g { chrs = g.chrs ++ val ∷ [] }

abbrev pub clear_chrs : Gatt → Gatt
clear_chrs g = record g { chrs = [] }

-- GattValue: the ATT response and the value of one read, each empty at first
pub record GattValue : Type 0 where
  pub att_rsp : Option String
  pub value : Option Text

abbrev pub new_value : GattValue
new_value = record { att_rsp = none; value = none }
