-- ===== src/Gap/Settings.antt =====
-- Theorems on the settings of stack/gap.py and their update from the controller's bit field.
use btptester_core.Prelude.{◌≡◌, Bool, true, false, String, arith, if◌then◌else◌}
use btptester_core.Dict
use btptester_core.Dict.{Dict, string_eq}
use btptester_core.Gap.{Gap, current_settings_set, current_settings_clear, current_settings_get}

abbrev pub assign : Gap → String → Bool → Gap
assign g key b = if b then current_settings_set g key else current_settings_clear g key

-- Assigning a key that is there gives it the value and leaves the others.
pub get-assign :
    (g : Gap) (key other : String) (b : Bool)
    → Dict.has_key g.current_settings key ≡ true
    → current_settings_get (assign g key b) other
      ≡ (if string_eq.beq key other then b else current_settings_get g other)
unfolding current_settings_get current_settings_set current_settings_clear
get-assign g key other true h = ground (arith, Dict.get-put g.current_settings key other true)
get-assign g key other false h = ground (arith, Dict.get-put g.current_settings key other false)

-- The keys stay the same.
pub has_key-assign :
    (g : Gap) (key other : String) (b : Bool)
    → Dict.has_key (assign g key b).current_settings other ≡ Dict.has_key g.current_settings other
unfolding current_settings_set current_settings_clear
has_key-assign g key other true =
    ground (arith, Dict.get-put g.current_settings key other true, string_eq.beq_iff key other)
has_key-assign g key other false =
    ground (arith, Dict.get-put g.current_settings key other false, string_eq.beq_iff key other)
