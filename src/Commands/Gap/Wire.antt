-- ===== src/Commands/Gap/Wire.antt =====
-- What the GAP commands with an address send for an address that an event has brought.
use btptester_core.Prelude.{ℕ, ◌≡◌, ◌<◌, List, [], ◌∷◌, ◌++◌, Bytes, IsBytes, arith, length}
use btptester_core.Result.{ok}
use btptester_core.Parser.{Header, enc_frame}
use btptester_core.Address.{ble_from_wire}
use btptester_core.Address.Wire.{ble_bytes-from_wire}
use btptester_core.Events.Gap.Found.{six}
use btptester_core.Defs.Gap
use btptester_core.Defs.Core.{btp_service_id_gap}
use btptester_core.Worker.{World, read, send_from, send, data_bytes}
use btptester_core.Commands.Response.{btp_hdr_check, gap_command_rsp_succ}
use btptester_core.Commands.Gap.Connect.{address_command, gap_conn}

-- A response of the GAP service with this opcode and any payload.
abbrev pub gap_reply : ℕ → Bytes → Header × Bytes
gap_reply op dat =
    (record { svc_id = btp_service_id_gap; op = op; ctrl_index = 0; data_len = length dat }, dat)

abbrev pub expecting : World → List (Header × Bytes) → World
expecting w frames = record w { rx_queue = frames }

-- The device is told to connect to exactly the address type and address bytes, in the order in
-- which the event brought them, followed by the own address type; the response is taken.
pub gap_conn-from_wire :
    (w : World) (t a b c d e f own : ℕ) (dat : Bytes) (later : List (Header × Bytes))
    → t < 256
    → IsBytes (six a b c d e f)
    → own < 256
    → gap_conn
        (ble_from_wire t (six a b c d e f))
        own
        (expecting w (gap_reply Gap.gap_connect dat ∷ later))
      ≡ (
        ok tt,
        record w {
          sent = w.sent ++ (1 ∷ Gap.gap_connect ∷ 0 ∷ 8 ∷ 0 ∷ t ∷ six a b c d e f ++ own ∷ []) ∷ [];
          rx_queue = later;
        },
      )
unfolding gap_conn address_command send_from send data_bytes enc_frame gap_command_rsp_succ
    btp_hdr_check read
gap_conn-from_wire w t a b c d e f own dat later ht hb ho =
    rw (ble_bytes-from_wire t (six a b c d e f) ht hb) (ground arith)
