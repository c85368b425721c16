-- ===== src/Commands/Db.antt =====
-- The functions of pybtp/btp.py that fill a `GattDB` with what the device answers.
use btptester_core.Prelude.{List, [], ◌∷◌}
use btptester_core.Result.{Result}
use btptester_core.GattDb.{GattDb, GattAttribute, attr_add}
use btptester_core.GattDb.Handles.{Handle}
use btptester_core.Exec.{Exec, pure, modify, ◌>>◌}
use btptester_core.Worker.{World, Btp}

-- The database is changed in place: what was added before a raise stays.
abbrev pub DbBtp : Type 0 → Type 0
DbBtp A = Exec (World × GattDb) A

abbrev beside : {A : Type 0} → GattDb → Result A × World → Result A × (World × GattDb)
beside db (r, w) = (r, (w, db))

-- code that does not touch the database
abbrev pub on_world : {A : Type 0} → Btp A → DbBtp A
on_world m (w, db) = beside db (m w)

-- db.attr_add(handle, attr)
abbrev pub add_to_db : Handle → GattAttribute → DbBtp (Unit {0})
add_to_db handle attr = modify (λ s. (s.0, attr_add s.1 handle attr))

-- `for x in l: body(x)`
unfoldable pub for_each : {A : Type 0} → (A → DbBtp (Unit {0})) → List A → DbBtp (Unit {0})
for_each body [] = pure tt
for_each body (x ∷ l) = do body x; for_each body l
