-- ===== src/GattDb.antt =====
-- The attribute classes and `GattDB` of stack/gatt.py.
-- Keys of `db` are numbers where the code adds them as numbers, and four upper-case digits where
-- it adds "%04X" % handle; Python refuses to sort a dict that has both.
pub mod Ends
pub mod Handles
pub mod Search
pub mod Numbers
pub mod Equality
use btptester_core.Prelude.{
  ℕ, ◌+◌, ◌-◌, Bool, true, false, ◌&&◌, ◌||◌, Option, none, some, List, [], ◌∷◌, map, Bytes, Text,
  ltb, leb, ◌==◌, text_eq, if◌then◌else◌, length,
}
use btptester_core.Result.{Result, ok, err, type_error, plain_exception, ◌>>=◌}
use btptester_core.Dict
use btptester_core.Dict.{Dict}
use btptester_core.GattDb.Handles.{Handle, num, hex, handle_le, handle_eq_inst}

-- The subclasses of GattAttribute with the fields that each adds. GattPrimary and GattSecondary
-- are the GattServices.
pub data Kind : Type 0 where
  primary secondary : Option Handle → Kind
  included : Handle → Handle → Kind
  characteristic : ℕ → ℕ → Kind
  descriptor : Option Bytes → Kind

-- GattAttribute; the uuid of an included service may be None
pub record GattAttribute : Type 0 where
  pub handle : Handle
  pub perm : ℕ
  pub uuid : Option Text
  pub att_read_rsp : ℕ
  pub kind : Kind

abbrev pub GattDb : Type 0
GattDb = Dict Handle GattAttribute

-- isinstance(attr, GattService) and so on
unfoldable pub is_service : GattAttribute → Bool
is_service a = elim a.kind [ primary _ ↦ true | secondary _ ↦ true | _ ↦ false ]

unfoldable pub is_included : GattAttribute → Bool
is_included a = elim a.kind [ included _ _ ↦ true | _ ↦ false ]

unfoldable pub is_characteristic : GattAttribute → Bool
is_characteristic a = elim a.kind [ characteristic _ _ ↦ true | _ ↦ false ]

unfoldable pub is_descriptor : GattAttribute → Bool
is_descriptor a = elim a.kind [ descriptor _ ↦ true | _ ↦ false ]

abbrev pub attr_add : GattDb → Handle → GattAttribute → GattDb
attr_add db handle attr = Dict.put db handle attr

abbrev pub attr_lookup_handle : GattDb → Handle → Option GattAttribute
attr_lookup_handle db handle = Dict.get db handle

module _ {V : Type 0} where
  unfoldable pub insert_item : Handle × V → List (Handle × V) → List (Handle × V)
  insert_item x [] = x ∷ []
  insert_item x (y ∷ ys) = if handle_le x.0 y.0 then x ∷ y ∷ ys else y ∷ insert_item x ys

  unfoldable pub sort_items : List (Handle × V) → List (Handle × V)
  unfolding insert_item
  sort_items [] = []
  sort_items (x ∷ xs) = insert_item x (sort_items xs)

  unfoldable pub all_num : List (Handle × V) → Bool
  all_num [] = true
  all_num ((num n, v) ∷ xs) = all_num xs
  all_num ((hex s, v) ∷ xs) = false

  unfoldable pub all_hex : List (Handle × V) → Bool
  all_hex [] = true
  all_hex ((num n, v) ∷ xs) = false
  all_hex ((hex s, v) ∷ xs) = all_hex xs

  -- sorted(self.db.items()): TypeError where a number meets a text
  unfoldable pub sorted_items : List (Handle × V) → Result (List (Handle × V))
  unfolding sort_items all_num all_hex
  sorted_items xs = if all_num xs || all_hex xs then ok (sort_items xs) else err type_error

abbrev uuid_eq : Text → Option Text → Bool
uuid_eq uuid none = false
uuid_eq uuid (some u) = text_eq u uuid

-- the loop of the four `find_…_by_uuid`
unfoldable pub find_uuid :
    (GattAttribute → Bool) → Text → List (Handle × GattAttribute) → Option GattAttribute
find_uuid is_kind uuid [] = none
find_uuid is_kind uuid ((hdl, attr) ∷ rest) =
    if is_kind attr && uuid_eq uuid attr.uuid then some attr else find_uuid is_kind uuid rest

unfoldable pub find_svc_by_uuid : GattDb → Text → Result (Option GattAttribute)
unfolding sorted_items is_service find_uuid
find_svc_by_uuid db uuid = do items ← sorted_items db; ok (find_uuid is_service uuid items)

unfoldable pub find_inc_svc_by_uuid : GattDb → Text → Result (Option GattAttribute)
unfolding sorted_items is_included find_uuid
find_inc_svc_by_uuid db uuid = do items ← sorted_items db; ok (find_uuid is_included uuid items)

unfoldable pub find_chr_by_uuid : GattDb → Text → Result (Option GattAttribute)
unfolding sorted_items is_characteristic find_uuid
find_chr_by_uuid db uuid = do items ← sorted_items db; ok (find_uuid is_characteristic uuid items)

unfoldable pub find_dsc_by_uuid : GattDb → Text → Result (Option GattAttribute)
unfolding sorted_items is_descriptor find_uuid
find_dsc_by_uuid db uuid = do items ← sorted_items db; ok (find_uuid is_descriptor uuid items)

unfoldable pub select : (GattAttribute → Bool) → List (Handle × GattAttribute) → List GattAttribute
select p [] = []
select p ((hdl, attr) ∷ rest) = if p attr then attr ∷ select p rest else select p rest

unfoldable pub get_attributes : GattDb → Result (List GattAttribute)
unfolding sorted_items
get_attributes db = do items ← sorted_items db; ok (map (λ e. e.1) items)

unfoldable pub get_services : GattDb → Result (List GattAttribute)
unfolding sorted_items select is_service
get_services db = do items ← sorted_items db; ok (select is_service items)

unfoldable pub get_characteristics : GattDb → Result (List GattAttribute)
unfolding sorted_items select is_characteristic
get_characteristics db = do items ← sorted_items db; ok (select is_characteristic items)

unfoldable pub get_descriptors : GattDb → Result (List GattAttribute)
unfolding sorted_items select is_descriptor
get_descriptors db = do items ← sorted_items db; ok (select is_descriptor items)

-- the loop of `find_characteristic_end` over the sorted items: None, or the last handle
unfoldable pub end_after : Handle → List (Handle × GattAttribute) → Result (Option ℕ)
unfolding is_descriptor
end_after hdl [] = ok (some 0xffff)
end_after (num h) ((num n, attr) ∷ rest) =
    if leb n h
    then end_after (num h) rest
    else if n == h + 2
    then ok none
    else if is_descriptor attr
    then end_after (num h) rest
    else ok (some (n - 1))
end_after (hex s) ((hex t, attr) ∷ rest) =
    if handle_le (hex t) (hex s) then end_after (hex s) rest else err type_error
end_after _ _ = err type_error

abbrev is_chrc : Option GattAttribute → Bool
is_chrc none = false
is_chrc (some a) = is_characteristic a

unfoldable pub find_characteristic_end : GattDb → Handle → Result (Option ℕ)
unfolding sorted_items end_after is_characteristic
find_characteristic_end db hdl =
    if is_chrc (Dict.get db hdl)
    then (do items ← sorted_items db; end_after hdl items)
    else err plain_exception
