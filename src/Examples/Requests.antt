-- ===== src/Examples/Requests.antt =====
-- Commands and their responses at concrete inputs.
use btptester_core.Prelude.{◌≡◌, refl, List, [], ◌∷◌, ◌++◌, map, length, true, All, arith}
use btptester_core.Result.{ok}
use btptester_core.Struct.{le32}
use btptester_core.Parser.{Header}
use btptester_core.Defs.Gap
use btptester_core.Dict
use btptester_core.Dict.{string_eq}
use btptester_core.Gap as GapState
use btptester_core.Stack
use btptester_core.Types.{test_bit}
use btptester_core.Events.Gap.Settings.{HasSettings}
use btptester_core.Worker.{World}
use btptester_core.Commands.Gap.Guards.{
  settings_reply, prepared, settings_commands, Exchanges, settings_commands-Exchanges,
}
use btptester_core.Commands.Gap.Advertise.{adv_payload}
use btptester_core.Commands.Gap.Advertise.Layout.{
  Entry, given, whole, heads, contents, adv_payload-layout,
}

abbrev world : World
world = record { stack = Stack.init; sent = []; rx_queue = [] }

settings_commands-Exchanges_example :
    All (Exchanges world GapState.init 0x53 0x0a 0 0 []) settings_commands
settings_commands-Exchanges_example =
    settings_commands-Exchanges world GapState.init 0x53 0x0a 0 0 []

init-HasSettings : HasSettings GapState.init
unfolding Dict.get
init-HasSettings = (
  refl,
  (
    refl,
    (
      refl,
      (
        refl,
        (
          refl,
          (
            refl,
            (refl, (refl, (refl, (refl, (refl, (refl, (refl, (refl, (refl, (refl, tt)))))))))),
          ),
        ),
      ),
    ),
  ),
)

connectable_bit : test_bit 2 1 ≡ true
unfolding test_bit
connectable_bit = refl

abbrev ready : World
ready = prepared world GapState.init (settings_reply Gap.gap_set_connectable 2 0 0 0 ∷ [])

abbrev header : Header
header = record { svc_id = 1; op = 6; ctrl_index = 0; data_len = 4 }

abbrev ad : List Entry
ad = (1, 6 ∷ []) ∷ []

abbrev sd : List Entry
sd = (8, b'T' ∷ b'e' ∷ []) ∷ []

adv_payload-layout_example :
    adv_payload (map given ad) (map given sd) 10 0
    ≡ ok (
        length (whole ad ++ heads sd) ∷ length (contents sd) ∷ (whole ad ++ heads sd)
        ++ contents sd
        ++ le32 10
        ++ 0 ∷ [])
adv_payload-layout_example = adv_payload-layout ad sd 10 0 (record {
  ad_fits = ground arith;
  sd_fits = ground arith;
  ad_length_fits = omega arith;
  sd_length_fits = omega arith;
  duration_fits = omega arith;
  own_fits = omega arith;
})
