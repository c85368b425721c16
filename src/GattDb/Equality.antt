-- ===== src/GattDb/Equality.antt =====
-- Equality and containment of `GattDB` (stack/gatt.py).
use btptester_core.Prelude.{
  ◌≡◌, refl, Bool, true, false, ◌&&◌, Option, none, some, [], ◌∷◌, Text, arith, leb, ◌==◌, text_eq,
  text_eq_iff, length,
}
use btptester_core.Dict
use btptester_core.GattDb.{
  Kind, primary, secondary, included, characteristic, descriptor, GattAttribute, GattDb,
}
use btptester_core.GattDb.Handles.{handle_eq, handle_eq_iff, handle_eq_inst}

-- the equality of two UUIDs
unfoldable pub uuid_eq : Option Text → Option Text → Bool
uuid_eq none none = true
uuid_eq (some u) (some v) = text_eq u v
uuid_eq _ _ = false

-- `__eq__`: attributes of one class with equal handles and UUIDs; for included services the handles
-- of the service instead of the UUID. Permissions, ATT responses and the other fields do not count.
unfoldable pub kinds_eq : Kind → Kind → Option Text → Option Text → Bool
unfolding uuid_eq handle_eq
kinds_eq (primary e) (primary f) u v = uuid_eq u v
kinds_eq (secondary e) (secondary f) u v = uuid_eq u v
kinds_eq (included s e) (included t f) u v = handle_eq s t && handle_eq e f
kinds_eq (characteristic p h) (characteristic q k) u v = uuid_eq u v
kinds_eq (descriptor a) (descriptor b) u v = uuid_eq u v
kinds_eq _ _ u v = false

unfoldable pub attr_eq : GattAttribute → GattAttribute → Bool
unfolding kinds_eq handle_eq
attr_eq a b = kinds_eq a.kind b.kind a.uuid b.uuid && handle_eq a.handle b.handle

abbrev same_attr : Option GattAttribute → GattAttribute → Bool
same_attr none b = false
same_attr (some a) b = attr_eq a b

-- every item of the second is an item of the first
unfoldable pub has_items : GattDb → GattDb → Bool
unfolding attr_eq
has_items db [] = true
has_items db ((hdl, attr) ∷ other) = same_attr (Dict.get db hdl) attr && has_items db other

-- other.db.items() <= self.db.items()
unfoldable pub contains : GattDb → GattDb → Bool
unfolding has_items
contains db other = leb (length other) (length db) && has_items db other

-- self.db == other.db
unfoldable pub db_eq : GattDb → GattDb → Bool
unfolding has_items
db_eq db other = (length db == length other) && has_items other db

uuid_eq_refl : (u : Option Text) → uuid_eq u u ≡ true
unfolding uuid_eq
uuid_eq_refl none = refl
uuid_eq_refl (some u) = ground (arith, text_eq_iff u u)

kinds_eq_refl : (k : Kind) (u : Option Text) → kinds_eq k k u u ≡ true
unfolding kinds_eq
kinds_eq_refl (primary e) u = uuid_eq_refl u
kinds_eq_refl (secondary e) u = uuid_eq_refl u
kinds_eq_refl (included s e) u = ground (arith, handle_eq_iff s s, handle_eq_iff e e)
kinds_eq_refl (characteristic p h) u = uuid_eq_refl u
kinds_eq_refl (descriptor a) u = uuid_eq_refl u

-- An attribute is equal to itself.
pub attr_eq_refl : (a : GattAttribute) → attr_eq a a ≡ true
unfolding attr_eq
attr_eq_refl a = ground (arith, kinds_eq_refl a.kind a.uuid, handle_eq_iff a.handle a.handle)

-- A database contains those that are equal to it.
pub contains-db_eq : (db other : GattDb) → db_eq other db ≡ true → contains db other ≡ true
unfolding contains db_eq
contains-db_eq db other h = ground (arith, h)
