-- ===== src/Events/Gap/Found.antt =====
-- Theorems on what the GAP event handlers write into the stack.
use btptester_core.Prelude.{ℕ, ◌≡◌, ◌≢◌, Bytes, [], ◌∷◌, ◌++◌, arith, some, length, ◌<◌}
use btptester_core.Result.{ok, err, btp_error}
use btptester_core.Struct.{le16, raw}
use btptester_core.Struct.Formats.{b_6s_b_b_h}
use btptester_core.Stack.{Stack}
use btptester_core.Gap.{Gap, LeAdv}
use btptester_core.Address.{ble_from_wire}
use btptester_core.Events.Args.{found}
use btptester_core.Events.Gap.{gap_device_found_ev_, b_6s_b_b_h}

-- Six address bytes as they stand in a payload.
abbrev pub six : ℕ → ℕ → ℕ → ℕ → ℕ → ℕ → Bytes
six a b c d e f = a ∷ b ∷ c ∷ d ∷ e ∷ f ∷ []

-- The payload of a device found event.
abbrev pub found_payload : ℕ → Bytes → ℕ → ℕ → Bytes → Bytes
found_payload t addr rssi flags eir = t ∷ addr ++ rssi ∷ flags ∷ le16 (length eir) ++ eir

-- A well-formed device found event appends the device to those found so far and changes nothing
-- else in the stack.
pub gap_device_found_ev-found_payload :
    (s : Stack) (g : Gap) (t a b c d e f rssi flags : ℕ) (eir : Bytes)
    → s.gap ≡ some g
    → length eir < 65536
    → let adv : LeAdv = record {
      addr = ble_from_wire t (six a b c d e f);
      rssi = rssi;
      flags = flags;
      eir = eir;
    } in
      gap_device_found_ev_ (found_payload t (six a b c d e f) rssi flags eir) s ≡ (
        ok (found adv),
        record s { gap = some (record g { found_devices = g.found_devices ++ adv ∷ [] }) },
      )
unfolding gap_device_found_ev_ b_6s_b_b_h raw
gap_device_found_ev-found_payload s g t a b c d e f rssi flags eir h l = ground (arith, h)

-- A payload whose length field is not the number of the bytes behind it is refused with BTPError,
-- and the stack stays as it was, for every length of the payload.
pub gap_device_found_ev-bad_length :
    (s : Stack) (t a b c d e f rssi flags n : ℕ) (eir : Bytes)
    → n < 65536
    → length eir ≢ n
    → gap_device_found_ev_ (t ∷ six a b c d e f ++ rssi ∷ flags ∷ le16 n ++ eir) s
      ≡ (err btp_error, s)
unfolding gap_device_found_ev_ b_6s_b_b_h raw
gap_device_found_ev-bad_length s t a b c d e f rssi flags n eir h l = ground arith
