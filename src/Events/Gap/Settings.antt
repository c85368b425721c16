-- ===== src/Events/Gap/Settings.antt =====
-- The effect of `__gap_current_settings_update` on what `current_settings_get` answers.
use btptester_core.Prelude.{
  ℕ, ◌≡◌, Bool, true, String, arith, if◌then◌else◌, refl, List, [], ◌∷◌, All, Option, none, some,
  ◌∙◌, ap,
}
use btptester_core.Dict
use btptester_core.Dict.{Dict, string_eq}
use btptester_core.Gap.{Gap, current_settings_get}
use btptester_core.Gap.Settings.{get-assign, has_key-assign, assign}
use btptester_core.Events.Gap.{settings_update, gap_settings_btp2txt, gap_current_settings_update}
use btptester_core.Types.{test_bit}

-- The value that the table gives a name: the last entry for it counts.
reported : List (ℕ × String) → ℕ → String → Option Bool
reported [] settings name = none
reported ((bit, n) ∷ rest) settings name = elim (reported rest settings name) [
  | some b ↦ some b
  | none ↦ if string_eq.beq n name then some (test_bit settings bit) else none
]

-- Every name of the table is a key of the dict.
abbrev HasNames : List (ℕ × String) → Gap → Type 0
HasNames table g = All (λ e. Dict.has_key g.current_settings e.1 ≡ true) table

HasNames-assign :
    (table : List (ℕ × String)) (g : Gap) (key : String) (b : Bool)
    → HasNames table g
    → HasNames table (assign g key b)
HasNames-assign [] g key b h = tt
HasNames-assign ((bit, n) ∷ rest) g key b (h, t) =
    (rw (has_key-assign g key n b) h, HasNames-assign rest g key b t)

abbrev or_else : Option Bool → Bool → Bool
or_else none b = b
or_else (some a) b = a

get-settings_update :
    (table : List (ℕ × String)) (settings : ℕ) (g : Gap) (name : String)
    → HasNames table g
    → current_settings_get (settings_update table settings g) name
      ≡ or_else (reported table settings name) (current_settings_get g name)
unfolding settings_update reported
get-settings_update [] settings g name h = refl
get-settings_update ((bit, n) ∷ rest) settings g name (h, t) = ground (
  arith,
  get-settings_update rest settings (assign g n (test_bit settings bit)) name
      (HasNames-assign rest g n (test_bit settings bit) t),
  get-assign g n name (test_bit settings bit) h,
)

has_key-settings_update :
    (table : List (ℕ × String)) (settings : ℕ) (g : Gap) (name : String)
    → Dict.has_key (settings_update table settings g).current_settings name
      ≡ Dict.has_key g.current_settings name
unfolding settings_update
has_key-settings_update [] settings g name = refl
has_key-settings_update ((bit, n) ∷ rest) settings g name = ground (
  arith,
  has_key-settings_update rest settings (assign g n (test_bit settings bit)) name,
  has_key-assign g n name (test_bit settings bit),
)

-- The dict has the sixteen keys of `initial_settings`.
abbrev pub HasSettings : Gap → Type 0
HasSettings g = HasNames gap_settings_btp2txt g

get-reported :
    (g : Gap) (settings bit : ℕ) (name : String)
    → HasSettings g
    → reported gap_settings_btp2txt settings name ≡ some (test_bit settings bit)
    → current_settings_get (gap_current_settings_update g settings) name ≡ test_bit settings bit
get-reported g settings bit name h e =
    get-settings_update gap_settings_btp2txt settings g name h
    ∙ ap (λ r. or_else r (current_settings_get g name)) e

-- What the update makes of one entry of the table: the setting is its bit, and its key is there.
abbrev pub IsSettled : Gap → ℕ → ℕ × String → Type 0
IsSettled g settings (bit, name) =
    (current_settings_get (gap_current_settings_update g settings) name ≡ test_bit settings bit)
    × (Dict.has_key (gap_current_settings_update g settings).current_settings name ≡ true)

All-IsSettled :
    (entries : List (ℕ × String)) (g : Gap) (settings : ℕ)
    → HasSettings g
    → HasNames entries g
    → All (λ e. reported gap_settings_btp2txt settings e.1 ≡ some (test_bit settings e.0)) entries
    → All (IsSettled g settings) entries
All-IsSettled [] g settings h k r = tt
All-IsSettled ((bit, name) ∷ entries) g settings h (k, ks) (r, rs) = (
  (
    get-reported g settings bit name h r,
    has_key-settings_update gap_settings_btp2txt settings g name ∙ k,
  ),
  All-IsSettled entries g settings h ks rs,
)

-- With the sixteen keys of the dict in place, each of the sixteen settings is, after the update,
-- its bit of the reported number, whatever it was before; and the keys stay in place.
pub settings_update-IsSettled :
    (g : Gap) (settings : ℕ) → HasSettings g → All (IsSettled g settings) gap_settings_btp2txt
unfolding reported
settings_update-IsSettled g settings h = All-IsSettled gap_settings_btp2txt g settings h h (
  refl,
  (
    refl,
    (
      refl,
      (
        refl,
        (
          refl,
          (
            refl,
            (refl, (refl, (refl, (refl, (refl, (refl, (refl, (refl, (refl, (refl, tt)))))))))),
          ),
        ),
      ),
    ),
  ),
)
