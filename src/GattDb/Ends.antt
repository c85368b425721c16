-- ===== src/GattDb/Ends.antt =====
-- `find_characteristic_end` of stack/gatt.py: where a characteristic ends.
use btptester_core.Prelude.{
  ℕ, ◌+◌, ◌≡◌, ◌≤◌, ◌∙◌, refl, ap, Bool, true, false, ◌||◌, ◌&&◌, Option, Option-cases, inl, inr,
  ◌-◌, if◌then◌else◌, none, some, [], ◌∷◌, arith, leb, ◌==◌, ==_iff,
}
use btptester_core.Result.{ok}
use btptester_core.Dict
use btptester_core.GattDb.{
  GattAttribute, is_characteristic, is_descriptor, end_after, sorted_items, find_characteristic_end,
}
use btptester_core.GattDb.Handles.{num, handle_eq_inst}
use btptester_core.GattDb.Search.{
  Numbered, by_number, place, ordered, sort_items-by_number, all_num-by_number,
}

-- a handle is in the database
unfoldable pub has_handle : Numbered → ℕ → Bool
has_handle [] n = false
has_handle ((k, a) ∷ l) n = (k == n) || has_handle l n

-- every handle is n or more; and the handles rise
from : ℕ → Numbered → Bool
from n [] = true
from n ((k, a) ∷ l) = leb n k && from n l

rises : Numbered → Bool
rises [] = true
rises ((k, a) ∷ l) = from k l && rises l

has_handle-place :
    (n m : ℕ) (a : GattAttribute) (l : Numbered)
    → has_handle (place n a l) m ≡ (n == m) || has_handle l m
unfolding has_handle place
has_handle-place n m a [] = refl
has_handle-place n m a ((k, b) ∷ l) = ground (arith, has_handle-place n m a l)

has_handle-ordered : (m : ℕ) (l : Numbered) → has_handle (ordered l) m ≡ has_handle l m
unfolding has_handle ordered
has_handle-ordered m [] = refl
has_handle-ordered m ((n, a) ∷ l) =
    has_handle-place n m a (ordered l) ∙ ap (λ b. (n == m) || b) (has_handle-ordered m l)

from-lower : (n k : ℕ) (l : Numbered) → n ≤ k → from k l ≡ true → from n l ≡ true
unfolding from
from-lower n k [] h f = refl
from-lower n k ((m, a) ∷ l) h f = ground (arith, from-lower n k l h, f)

from-place :
    (n k : ℕ) (a : GattAttribute) (l : Numbered)
    → k ≤ n
    → from k l ≡ true
    → from k (place n a l) ≡ true
unfolding from place
from-place n k a [] h f = ground arith
from-place n k a ((m, b) ∷ l) h f = ground (arith, from-place n k a l h, f)

rises-place :
    (n : ℕ) (a : GattAttribute) (l : Numbered) → rises l ≡ true → rises (place n a l) ≡ true
unfolding rises place from
rises-place n a [] r = refl
rises-place n a ((m, b) ∷ l) r =
    ground (arith, rises-place n a l, from-place n m a l, from-lower n m l, r)

rises-ordered : (l : Numbered) → rises (ordered l) ≡ true
unfolding rises ordered
rises-ordered [] = refl
rises-ordered ((n, a) ∷ l) = rises-place n a (ordered l) (rises-ordered l)

from-has_handle : (n m : ℕ) (l : Numbered) → from n l ≡ true → has_handle l m ≡ true → n ≤ m
unfolding from has_handle
from-has_handle n m [] f h = absurd (ground (arith, h))
from-has_handle n m ((k, a) ∷ l) f h = ground (arith, from-has_handle n m l, f, h, ==_iff k m)

-- the lower of a number and another one, where there is one
abbrev lower : ℕ → Option ℕ → Option ℕ
lower n none = some n
lower n (some m) = if leb n m then some n else some m

-- The lowest handle above `h` that is not that of a descriptor.
unfoldable pub next_attr : ℕ → Numbered → Option ℕ
next_attr h [] = none
next_attr h ((n, a) ∷ l) =
    let rest = next_attr h l in if leb n h || is_descriptor a then rest else lower n rest

-- Where a characteristic at `h` ends: the attribute that is not its descriptor, if any, and whether
-- there is one two handles on.
abbrev pub end_at : ℕ → Bool → Option ℕ → Option ℕ
end_at h two_on none = if two_on then none else some 0xffff
end_at h two_on (some n) = if n == h + 1 then some h else if two_on then none else some (n - 1)

lower-swap : (n m : ℕ) (o : Option ℕ) → lower n (lower m o) ≡ lower m (lower n o)
lower-swap n m none = ground arith
lower-swap n m (some k) = ground arith

next_attr-place :
    (h n : ℕ) (a : GattAttribute) (l : Numbered)
    → next_attr h (place n a l) ≡ next_attr h ((n, a) ∷ l)
unfolding next_attr place
next_attr-place h n a [] = refl
next_attr-place h n a ((m, b) ∷ l) =
    ground (arith, next_attr-place h n a l, lower-swap n m (next_attr h l))

next_attr-ordered : (h : ℕ) (l : Numbered) → next_attr h (ordered l) ≡ next_attr h l
unfolding next_attr ordered
next_attr-ordered h [] = refl
next_attr-ordered h ((n, a) ∷ l) =
    ground (arith, next_attr-place h n a (ordered l), next_attr-ordered h l)

next_attr-from : (h n m : ℕ) (l : Numbered) → from n l ≡ true → next_attr h l ≡ some m → n ≤ m
unfolding next_attr from
next_attr-from h n m [] f e = absurd (ground arith)
next_attr-from h n m ((k, a) ∷ l) f e = elim (Option-cases (next_attr h l)) [
  | inl y ↦ ground arith
  | inr (j, y) ↦ ground (arith, next_attr-from h n j l)
]

end_after-end_at :
    (h : ℕ) (l : Numbered)
    → rises l ≡ true
    → end_after (num h) (by_number l) ≡ ok (end_at h (has_handle l (h + 2)) (next_attr h l))
unfolding rises has_handle end_after next_attr
end_after-end_at h [] r = refl
end_after-end_at h ((k, a) ∷ l) r = elim (Option-cases (next_attr h l)) [
  | inl y ↦
      ground (arith, end_after-end_at h l, from-has_handle k (h + 2) l, ==_iff k (h + 2), r, y)
  | inr (j, y) ↦ ground (
    arith,
    end_after-end_at h l,
    from-has_handle k (h + 2) l,
    next_attr-from h k j l,
    ==_iff k (h + 2),
    r,
    y,
  )
]

-- In a database with numbers for handles, in any order, `find_characteristic_end` gives for a
-- characteristic its own handle if the next one is that of no descriptor; otherwise None if there
-- is an attribute two handles on; otherwise the handle in front of the lowest later attribute that
-- is no descriptor, or 0xffff if there is none.
pub find_characteristic_end-end_at :
    (l : Numbered) (h : ℕ) (char : GattAttribute)
    → Dict.get (by_number l) (num h) ≡ some char
    → is_characteristic char ≡ true
    → find_characteristic_end (by_number l) (num h)
      ≡ ok (end_at h (has_handle l (h + 2)) (next_attr h l))
unfolding find_characteristic_end sorted_items
find_characteristic_end-end_at l h char g c =
    let found : end_after (num h) (by_number (ordered l))
        ≡ ok (end_at h (has_handle l (h + 2)) (next_attr h l)) =
      end_after-end_at h (ordered l) (rises-ordered l)
      ∙ ap (λ b. ok (end_at h b (next_attr h (ordered l)))) (has_handle-ordered (h + 2) l)
      ∙ ap (λ m. ok (end_at h (has_handle l (h + 2)) m)) (next_attr-ordered h l) in
    ground (arith, sort_items-by_number l, all_num-by_number l, found, g, c)
