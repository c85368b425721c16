-- ===== src/Dict.antt =====
-- Python's dict: an association list in insertion order. A key has at most one entry; `put` keeps
-- the place, and the key object, of an entry that it overwrites.
use text.Mathlib.Text.{◌==◌ as str_eq}
use text.Mathlib.TextEquality.{eq_iff}
use btptester_core.Prelude.{
  ℕ, ◌≡◌, ◌↔◌, refl, Bool, true, false, Option, none, some, List, [], ◌∷◌, String, arith, ==_iff,
  ◌==◌, if◌then◌else◌,
}
use btptester_core.Address.{BleAddress, ble_eq}
use btptester_core.Address.Wire.{ble_eq_iff}

-- A type of keys: `==` decides equality.
pub record Eq {ℓ} (A : Type ℓ) : Type ℓ where
  pub beq : (x y : A) → Bool
  pub beq_iff : (x y : A) → (beq x y ≡ true) ↔ (x ≡ y)

instance abbrev pub nat_eq : Eq ℕ
nat_eq = record { beq = ◌==◌; beq_iff = ==_iff }

instance abbrev pub string_eq : Eq String
string_eq = record { beq = str_eq; beq_iff = eq_iff }

instance abbrev pub ble_address_eq : Eq BleAddress
ble_address_eq = record { beq = ble_eq; beq_iff = ble_eq_iff }

abbrev pub Dict {ℓ} : Type ℓ → Type ℓ → Type ℓ
Dict K V = List (K × V)

module _ {ℓ} {K V : Type ℓ} ⦃e : Eq K⦄ where
  -- d.get(k)
  unfoldable pub get : Dict K V → K → Option V
  get [] k = none
  get ((j, v) ∷ d) k = if e.beq j k then some v else get d k

  -- d[k] = v
  unfoldable pub put : Dict K V → K → V → Dict K V
  put [] k v = (k, v) ∷ []
  put ((j, w) ∷ d) k v = if e.beq j k then (j, v) ∷ d else (j, w) ∷ put d k v

  -- del d[k], where the key is there
  unfoldable pub remove : Dict K V → K → Dict K V
  remove [] k = []
  remove ((j, v) ∷ d) k = let rest = remove d k in if e.beq j k then rest else (j, v) ∷ rest

  -- k in d
  abbrev pub has_key : Dict K V → K → Bool
  has_key d k = elim (get d k) [ none ↦ false | some v ↦ true ]

  pub get-put :
      (d : Dict K V) (k j : K) (v : V) → get (put d k v) j ≡ (if e.beq k j then some v else get d j)
  unfolding get put
  get-put [] k j v = refl
  get-put ((i, w) ∷ d) k j v =
      ground (arith, e.beq_iff k j, e.beq_iff i k, e.beq_iff i j, get-put d k j v)

  pub get-remove :
      (d : Dict K V) (k j : K) → get (remove d k) j ≡ (if e.beq k j then none else get d j)
  unfolding get remove
  get-remove [] k j = ground arith
  get-remove ((i, w) ∷ d) k j =
      ground (arith, e.beq_iff k j, e.beq_iff i k, e.beq_iff i j, get-remove d k j)

  -- A key that is new and then removed leaves the dict as it was.
  pub remove-put_new : (d : Dict K V) (k : K) (v : V) → get d k ≡ none → remove (put d k v) k ≡ d
  unfolding get put remove
  remove-put_new [] k v h = ground (arith, e.beq_iff k k)
  remove-put_new ((i, w) ∷ d) k v h = ground (arith, remove-put_new d k v)

pub beq_refl {ℓ} : {K : Type ℓ} ⦃e : Eq K⦄ (k : K) → e.beq k k ≡ true
beq_refl ⦃e⦄ k = (e.beq_iff k k).1 refl
