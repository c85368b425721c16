-- ===== src/Types.antt =====
-- pybtp/types.py: the names of the controller's settings.
use btptester_core.Prelude.{ℕ, Bool, List, [], ◌∷◌, String, ◌/◌, ◌%◌, ◌^◌, ◌==◌}
use btptester_core.Defs.Gap.{
  gap_settings_powered, gap_settings_connectable, gap_settings_fast_connectable,
  gap_settings_discoverable, gap_settings_bondable, gap_settings_link_sec_3, gap_settings_ssp,
  gap_settings_bredr, gap_settings_hs, gap_settings_le, gap_settings_advertising, gap_settings_sc,
  gap_settings_debug_keys, gap_settings_privacy, gap_settings_controller_config,
  gap_settings_static_address,
}

abbrev pub gap_settings_btp2txt : List (ℕ × String)
gap_settings_btp2txt =
    (gap_settings_powered, "Powered")
    ∷ (gap_settings_connectable, "Connectable")
    ∷ (gap_settings_fast_connectable, "Fast Connectable")
    ∷ (gap_settings_discoverable, "Discoverable")
    ∷ (gap_settings_bondable, "Bondable")
    ∷ (gap_settings_link_sec_3, "Link Level Security")
    ∷ (gap_settings_ssp, "SSP")
    ∷ (gap_settings_bredr, "BREDR")
    ∷ (gap_settings_hs, "HS")
    ∷ (gap_settings_le, "LE")
    ∷ (gap_settings_advertising, "Advertising")
    ∷ (gap_settings_sc, "SC")
    ∷ (gap_settings_debug_keys, "Debug Keys")
    ∷ (gap_settings_privacy, "Privacy")
    ∷ (gap_settings_controller_config, "Controller Configuration")
    ∷ (gap_settings_static_address, "Static Address")
    ∷ []

-- `settings & (1 << bit)` as a test
unfoldable pub test_bit : ℕ → ℕ → Bool
test_bit settings bit = settings / 2 ^ bit % 2 == 1
