-- ===== src/GattDb/Search.antt =====
-- The look-ups by UUID in `GattDB`, on a database with numbers for handles.
use btptester_core.Prelude.{
  ℕ, ◌≡◌, ◌≤◌, refl, ap, ◌∙◌, List, [], ◌∷◌, All, Text, Bool, true, ◌&&◌, Option, none, some, arith,
  leb, if◌then◌else◌,
}
use btptester_core.Result.{ok}
use btptester_core.GattDb.Handles.{num, handle_le}
use btptester_core.GattDb.{
  GattAttribute, GattDb, is_service, is_included, is_characteristic, is_descriptor, insert_item,
  sort_items, all_num, sorted_items, uuid_eq, find_uuid, find_svc_by_uuid, find_inc_svc_by_uuid,
  find_chr_by_uuid, find_dsc_by_uuid,
}

abbrev pub Numbered : Type 0
Numbered = List (ℕ × GattAttribute)

abbrev pub by_number : Numbered → GattDb
by_number [] = []
by_number ((n, a) ∷ l) = (num n, a) ∷ by_number l

-- the better of an attribute that is wanted and the best of the others
abbrev pub better : ℕ → GattAttribute → Option (ℕ × GattAttribute) → Option (ℕ × GattAttribute)
better n a none = some (n, a)
better n a (some (k, b)) = if leb n k then some (n, a) else some (k, b)

-- The wanted attribute with the lowest handle, found without sorting.
abbrev pub lowest : (GattAttribute → Bool) → Numbered → Option (ℕ × GattAttribute)
lowest wanted [] = none
lowest wanted ((n, a) ∷ l) =
    let best = lowest wanted l in if wanted a then better n a best else best

abbrev pub attr_of : Option (ℕ × GattAttribute) → Option GattAttribute
attr_of none = none
attr_of (some (n, a)) = some a

unfoldable pub place : ℕ → GattAttribute → Numbered → Numbered
place n a [] = (n, a) ∷ []
place n a ((k, b) ∷ l) = if leb n k then (n, a) ∷ (k, b) ∷ l else (k, b) ∷ place n a l

unfoldable pub ordered : Numbered → Numbered
ordered [] = []
ordered ((n, a) ∷ l) = place n a (ordered l)

first : (GattAttribute → Bool) → Numbered → Option (ℕ × GattAttribute)
first wanted [] = none
first wanted ((n, a) ∷ l) = if wanted a then some (n, a) else first wanted l

insert_item-by_number :
    (n : ℕ) (a : GattAttribute) (l : Numbered)
    → insert_item (num n, a) (by_number l) ≡ by_number (place n a l)
unfolding insert_item place handle_le
insert_item-by_number n a [] = refl
insert_item-by_number n a ((k, b) ∷ l) = ground (arith, insert_item-by_number n a l)

pub sort_items-by_number : (l : Numbered) → sort_items (by_number l) ≡ by_number (ordered l)
unfolding sort_items ordered
sort_items-by_number [] = refl
sort_items-by_number ((n, a) ∷ l) =
    rw (sort_items-by_number l) (insert_item-by_number n a (ordered l))

pub all_num-by_number : (l : Numbered) → all_num (by_number l) ≡ true
unfolding all_num
all_num-by_number [] = refl
all_num-by_number ((n, a) ∷ l) = all_num-by_number l

find_uuid-by_number :
    (is_kind : GattAttribute → Bool) (uuid : Text) (l : Numbered)
    → find_uuid is_kind uuid (by_number l)
      ≡ attr_of (first (λ a. is_kind a && uuid_eq uuid a.uuid) l)
unfolding find_uuid first
find_uuid-by_number is_kind uuid [] = refl
find_uuid-by_number is_kind uuid ((n, a) ∷ l) = ground (arith, find_uuid-by_number is_kind uuid l)

-- Nothing that is found stands below `n`.
Above : ℕ → Option (ℕ × GattAttribute) → Type 0
Above n none = Unit {0}
Above n (some (k, b)) = n ≤ k

Sorted : Numbered → Type 0
Sorted [] = Unit {0}
Sorted ((n, a) ∷ l) = All (λ e. n ≤ e.0) l × Sorted l

All-place :
    (k n : ℕ) (a : GattAttribute) (l : Numbered)
    → k ≤ n
    → All (λ e. k ≤ e.0) l
    → All (λ e. k ≤ e.0) (place n a l)
unfolding place
All-place k n a [] h t = (h, tt)
All-place k n a ((m, b) ∷ l) h (x, t) = ground (arith, All-place k n a l h t, x, t, h)

All-weaken : (n k : ℕ) (l : Numbered) → n ≤ k → All (λ e. k ≤ e.0) l → All (λ e. n ≤ e.0) l
All-weaken n k [] h t = tt
All-weaken n k ((m, b) ∷ l) h (x, t) = (omega (arith, h, x), All-weaken n k l h t)

place-Sorted : (n : ℕ) (a : GattAttribute) (l : Numbered) → Sorted l → Sorted (place n a l)
unfolding place Sorted
place-Sorted n a [] h = (tt, tt)
place-Sorted n a ((k, b) ∷ l) (x, t) =
    ground (arith, place-Sorted n a l t, All-weaken n k l, All-place k n a l)

ordered-Sorted : (l : Numbered) → Sorted (ordered l)
unfolding ordered Sorted
ordered-Sorted [] = tt
ordered-Sorted ((n, a) ∷ l) = place-Sorted n a (ordered l) (ordered-Sorted l)

first-Above :
    (wanted : GattAttribute → Bool) (n : ℕ) (l : Numbered)
    → All (λ e. n ≤ e.0) l
    → Above n (first wanted l)
unfolding first Above
first-Above wanted n [] h = tt
first-Above wanted n ((k, b) ∷ l) (x, t) = ground (arith, first-Above wanted n l t, x)

better-Above :
    (n : ℕ) (a : GattAttribute) (o : Option (ℕ × GattAttribute))
    → Above n o
    → better n a o ≡ some (n, a)
unfolding Above
better-Above n a none h = refl
better-Above n a (some (k, b)) h = ground (arith, h)

better-first :
    (wanted : GattAttribute → Bool) (n k : ℕ) (a b : GattAttribute) (l : Numbered)
    → n ≤ k
    → All (λ e. k ≤ e.0) l
    → better n a (first wanted ((k, b) ∷ l)) ≡ some (n, a)
better-first wanted n k a b l h t =
    better-Above n a (first wanted ((k, b) ∷ l))
      (first-Above wanted n ((k, b) ∷ l) (h, All-weaken n k l h t))

first-place :
    (wanted : GattAttribute → Bool) (n : ℕ) (a : GattAttribute) (l : Numbered)
    → Sorted l
    → first wanted (place n a l)
      ≡ (if wanted a then better n a (first wanted l) else first wanted l)
unfolding first place Sorted
first-place wanted n a [] h = refl
first-place wanted n a ((k, b) ∷ l) (x, t) =
    ground (arith, first-place wanted n a l t, better-first wanted n k a b l)

first-ordered :
    (wanted : GattAttribute → Bool) (l : Numbered) → first wanted (ordered l) ≡ lowest wanted l
unfolding first ordered
first-ordered wanted [] = refl
first-ordered wanted ((n, a) ∷ l) =
    rw (first-place wanted n a (ordered l) (ordered-Sorted l), first-ordered wanted l) refl

-- The attribute of a kind with this UUID and the lowest handle.
abbrev pub lowest_of : (GattAttribute → Bool) → Text → Numbered → Option GattAttribute
lowest_of is_kind uuid l = attr_of (lowest (λ a. is_kind a && uuid_eq uuid a.uuid) l)

sorted_items-by_number : (l : Numbered) → sorted_items (by_number l) ≡ ok (by_number (ordered l))
unfolding sorted_items
sorted_items-by_number l = rw (all_num-by_number l, sort_items-by_number l) refl

find_uuid-lowest :
    (is_kind : GattAttribute → Bool) (uuid : Text) (l : Numbered)
    → find_uuid is_kind uuid (by_number (ordered l)) ≡ lowest_of is_kind uuid l
find_uuid-lowest is_kind uuid l =
    find_uuid-by_number is_kind uuid (ordered l)
    ∙ ap attr_of (first-ordered (λ a. is_kind a && uuid_eq uuid a.uuid) l)

-- On a database with numbers for handles, in any order of its entries, each of the four look-ups
-- succeeds and returns the attribute of its kind with the given UUID that has the lowest handle,
-- and None if there is no such attribute.
pub find_by_uuid-lowest_of :
    (l : Numbered) (uuid : Text)
    → (find_svc_by_uuid (by_number l) uuid ≡ ok (lowest_of is_service uuid l))
      × (find_inc_svc_by_uuid (by_number l) uuid ≡ ok (lowest_of is_included uuid l))
      × (find_chr_by_uuid (by_number l) uuid ≡ ok (lowest_of is_characteristic uuid l))
      × (find_dsc_by_uuid (by_number l) uuid ≡ ok (lowest_of is_descriptor uuid l))
unfolding find_svc_by_uuid find_inc_svc_by_uuid find_chr_by_uuid find_dsc_by_uuid
find_by_uuid-lowest_of l uuid = (
  rw (sorted_items-by_number l, find_uuid-lowest is_service uuid l) refl,
  rw (sorted_items-by_number l, find_uuid-lowest is_included uuid l) refl,
  rw (sorted_items-by_number l, find_uuid-lowest is_characteristic uuid l) refl,
  rw (sorted_items-by_number l, find_uuid-lowest is_descriptor uuid l) refl,
)
