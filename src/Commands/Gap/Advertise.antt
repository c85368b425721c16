-- ===== src/Commands/Gap/Advertise.antt =====
-- `gap_adv_ind_on` of pybtp/btp.py and the payload that it builds.
pub mod Layout
use btptester_core.Prelude.{
  ℕ, Bool, true, false, Option, none, some, List, [], ◌∷◌, ◌++◌, Bytes, Text, String, reverse,
  length, if◌then◌else◌,
}
use btptester_core.Result
use btptester_core.Result.{Result, ok, err}
use btptester_core.Struct.{pack_u32, to_byte}
use btptester_core.Hex.{unhexlify}
use btptester_core.Defs.Gap
use btptester_core.Gap.{Gap, current_settings_get}
use btptester_core.Exec.{pure, lift, ◌>>=◌, ◌>>◌}
use btptester_core.Worker.{Btp, send_from, encode}
use btptester_core.Commands.Table.{bytes}
use btptester_core.Commands.Table.Gap.{gap}
use btptester_core.Commands.Response.{gap_command_rsp_succ}
use btptester_core.Commands.Gap.{the_gap, update_from_rsp}

-- An entry's data: a text of digits, big-endian, or bytes.
pub data AdData : Type 0 where
  hex_text : Text → AdData
  plain : Bytes → AdData

unfoldable pub entry_bytes : AdData → Result Bytes
entry_bytes (hex_text s) = Result.◌>>=◌ (unhexlify s) λ b. ok (reverse b)
entry_bytes (plain b) = ok b

-- the loop over `ad`
unfoldable pub ad_block : List (ℕ × AdData) → Bytes → Result Bytes
unfolding entry_bytes
ad_block [] ad_ba = ok ad_ba
ad_block ((t, d) ∷ ad) ad_ba = Result.◌>>=◌ (entry_bytes d) λ dat.
    Result.◌>>=◌ (to_byte t)
      λ t'. Result.◌>>=◌ (to_byte (length dat)) λ n. ad_block ad (ad_ba ++ t' ++ n ++ dat)

-- the loop over `sd`: type and length go to `ad_ba`, the data to `sd_ba`
unfoldable pub sd_block : List (ℕ × AdData) → Bytes → Bytes → Result (Bytes × Bytes)
unfolding entry_bytes
sd_block [] ad_ba sd_ba = ok (ad_ba, sd_ba)
sd_block ((t, d) ∷ sd) ad_ba sd_ba = Result.◌>>=◌ (entry_bytes d) λ dat.
    Result.◌>>=◌ (to_byte t)
      λ t'. Result.◌>>=◌ (to_byte (length dat)) λ n. sd_block sd (ad_ba ++ t' ++ n) (sd_ba ++ dat)

-- An argument of None is the empty list here: both skip the loop.
unfoldable pub adv_payload : List (ℕ × AdData) → List (ℕ × AdData) → ℕ → ℕ → Result Bytes
unfolding ad_block sd_block
adv_payload ad sd duration own_addr_type = Result.◌>>=◌ (ad_block ad []) λ ad_ba'.
    Result.◌>>=◌ (sd_block sd ad_ba' []) λ (ad_ba, sd_ba).
      Result.◌>>=◌ (to_byte (length ad_ba)) λ n. Result.◌>>=◌ (to_byte (length sd_ba)) λ m.
        Result.◌>>=◌ (pack_u32 duration) λ d.
          Result.◌>>=◌ (encode (own_addr_type ∷ []))
            λ own. ok (n ++ m ++ ad_ba ++ sd_ba ++ d ++ own)

unfoldable pub gap_adv_ind_on : List (ℕ × AdData) → List (ℕ × AdData) → ℕ → ℕ → Btp (Unit {0})
unfolding adv_payload
gap_adv_ind_on ad sd duration own_addr_type = do
  g ← the_gap
  if current_settings_get g "Advertising" then pure tt else do
    data_ba ← lift (adv_payload ad sd duration own_addr_type)
    send_from gap "start_adv" (some (bytes data_ba))
    tuple_data ← gap_command_rsp_succ (some Gap.gap_start_advertising)
    update_from_rsp tuple_data
