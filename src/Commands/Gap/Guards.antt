-- ===== src/Commands/Gap/Guards.antt =====
-- Theorems on the GAP commands that report settings.
use btptester_core.Prelude.{
  Bool, not, if◌then◌else◌, Bool-cases, inl, inr, ℕ, ◌≡◌, ◌≢◌, refl, List, [], ◌∷◌, ◌++◌, Bytes,
  String, All, ◌+◌, ◌*◌, ◌∙◌, arith, none, some, true, false,
}
use btptester_core.Result.{Result, ok}
use btptester_core.Exec.{pure, ◌>>=◌, ◌>>◌}
use btptester_core.Events.Gap.Settings.{HasSettings, settings_update-IsSettled}
use btptester_core.Hex.{unhexlify, digit_value}
use btptester_core.Parser.{Header, enc_frame}
use btptester_core.Gap.{Gap, current_settings_get}
use btptester_core.Types.{test_bit}
use btptester_core.Defs.Gap
use btptester_core.Defs.Core.{btp_service_id_gap}
use btptester_core.Events.Gap.{gap_current_settings_update}
use btptester_core.Worker.{World, Btp, read, send_from, send, data_bytes}
use btptester_core.Commands.Response.{btp_hdr_check, gap_command_rsp_succ}
use btptester_core.Commands.Gap.{
  settings_command, update_from_rsp, settings_from, gap_adv_off, gap_set_conn, gap_set_nonconn,
  gap_set_nondiscov, gap_set_gendiscov, gap_set_limdiscov, gap_set_powered_on, gap_set_powered_off,
}
use btptester_core.Commands.Table.Gap.{gap}

-- A response of the GAP service with four bytes of settings.
abbrev pub settings_reply : ℕ → ℕ → ℕ → ℕ → ℕ → Header × Bytes
settings_reply op b0 b1 b2 b3 = (
  record { svc_id = btp_service_id_gap; op = op; ctrl_index = 0; data_len = 4 },
  b0 ∷ b1 ∷ b2 ∷ b3 ∷ [],
)

abbrev pub le_value : ℕ → ℕ → ℕ → ℕ → ℕ
le_value b0 b1 b2 b3 = b0 + 256 * (b1 + 256 * (b2 + 256 * b3))

-- A world in which the device has the GAP state `g` and the worker will get `frames`.
abbrev pub prepared : World → Gap → List (Header × Bytes) → World
prepared w g frames = record w { stack = record w.stack { gap = some g }; rx_queue = frames }

abbrev pub exchanged : World → Gap → Bytes → List (Header × Bytes) → World
exchanged w g sent later = record (prepared w g later) { sent = w.sent ++ sent ∷ [] }

-- The keys of the table with which the settings commands are called, the opcode that they expect
-- in the response, and the frame that goes to the device.
abbrev table_keys : List (String × ℕ × Bytes)
table_keys =
    ("stop_adv", Gap.gap_stop_advertising, 1 ∷ Gap.gap_stop_advertising ∷ 0 ∷ 0 ∷ 0 ∷ [])
    ∷ ("set_conn", Gap.gap_set_connectable, 1 ∷ Gap.gap_set_connectable ∷ 0 ∷ 1 ∷ 0 ∷ 1 ∷ [])
    ∷ ("set_nonconn", Gap.gap_set_connectable, 1 ∷ Gap.gap_set_connectable ∷ 0 ∷ 1 ∷ 0 ∷ 0 ∷ [])
    ∷ ("set_nondiscov", Gap.gap_set_discoverable, 1 ∷ Gap.gap_set_discoverable ∷ 0 ∷ 1 ∷ 0 ∷ 0 ∷ [])
    ∷ ("set_gendiscov", Gap.gap_set_discoverable, 1 ∷ Gap.gap_set_discoverable ∷ 0 ∷ 1 ∷ 0 ∷ 1 ∷ [])
    ∷ ("set_limdiscov", Gap.gap_set_discoverable, 1 ∷ Gap.gap_set_discoverable ∷ 0 ∷ 1 ∷ 0 ∷ 2 ∷ [])
    ∷ ("set_powered_on", Gap.gap_set_powered, 1 ∷ Gap.gap_set_powered ∷ 0 ∷ 1 ∷ 0 ∷ 1 ∷ [])
    ∷ ("set_powered_off", Gap.gap_set_powered, 1 ∷ Gap.gap_set_powered ∷ 0 ∷ 1 ∷ 0 ∷ 0 ∷ [])
    ∷ []

abbrev Sends : World → String × ℕ × Bytes → Type 0
Sends w (key, op, frame) =
    send_from gap key none w ≡ (ok tt, record w { sent = w.sent ++ frame ∷ [] })

All-Sends : (w : World) → All (Sends w) table_keys
unfolding send_from send data_bytes enc_frame unhexlify digit_value
All-Sends w = (refl, (refl, (refl, (refl, (refl, (refl, (refl, (refl, tt))))))))

abbrev answer : ℕ → World → Result (Unit {0}) × World
answer op = do tuple_data ← gap_command_rsp_succ (some op); update_from_rsp tuple_data

answer_lem :
    (op b0 b1 b2 b3 : ℕ) (w : World) (g : Gap) (later : List (Header × Bytes))
    → op ≢ 0
    → answer op (prepared w g (settings_reply op b0 b1 b2 b3 ∷ later))
      ≡ (ok tt, prepared w (gap_current_settings_update g (le_value b0 b1 b2 b3)) later)
unfolding gap_command_rsp_succ update_from_rsp settings_from btp_hdr_check read
answer_lem op b0 b1 b2 b3 w g later n = ground arith

settings_command-Sends :
    (w : World) (key : String) (op : ℕ) (frame : Bytes)
    → Sends w (key, op, frame)
    → settings_command key op w ≡ answer op (record w { sent = w.sent ++ frame ∷ [] })
unfolding settings_command
settings_command-Sends w key op frame h = rw h refl

-- The command sends its frame, takes the response and stores the settings that it reports.
abbrev ExchangesKey :
    World → Gap → ℕ → ℕ → ℕ → ℕ → List (Header × Bytes) → String × ℕ × Bytes → Type 0
ExchangesKey w g b0 b1 b2 b3 later (key, op, frame) =
    settings_command key op (prepared w g (settings_reply op b0 b1 b2 b3 ∷ later))
    ≡ (ok tt, exchanged w (gap_current_settings_update g (le_value b0 b1 b2 b3)) frame later)

exchange :
    (w : World) (g : Gap) (b0 b1 b2 b3 : ℕ) (later : List (Header × Bytes)) (key : String) (op : ℕ)
    (frame : Bytes)
    → Sends (prepared w g (settings_reply op b0 b1 b2 b3 ∷ later)) (key, op, frame)
    → op ≢ 0
    → ExchangesKey w g b0 b1 b2 b3 later (key, op, frame)
exchange w g b0 b1 b2 b3 later key op frame s n =
    settings_command-Sends (prepared w g (settings_reply op b0 b1 b2 b3 ∷ later)) key op frame s
    ∙ answer_lem op b0 b1 b2 b3 (record w { sent = w.sent ++ frame ∷ [] }) g later n

exchange-All :
    (cmds : List (String × ℕ × Bytes)) (w : World) (g : Gap) (b0 b1 b2 b3 : ℕ)
    (later : List (Header × Bytes))
    → ((v : World) → All (Sends v) cmds)
    → All (λ c. c.1 ≢ 0) cmds
    → All (ExchangesKey w g b0 b1 b2 b3 later) cmds
exchange-All [] w g b0 b1 b2 b3 later s n = tt
exchange-All ((key, op, frame) ∷ cmds) w g b0 b1 b2 b3 later s (n, ns) = (
  exchange w g b0 b1 b2 b3 later key op frame
      (s (prepared w g (settings_reply op b0 b1 b2 b3 ∷ later))).0 n,
  exchange-All cmds w g b0 b1 b2 b3 later (λ v. (s v).1) ns,
)

table_keys-ExchangesKey :
    (w : World) (g : Gap) (b0 b1 b2 b3 : ℕ) (later : List (Header × Bytes))
    → All (ExchangesKey w g b0 b1 b2 b3 later) table_keys
table_keys-ExchangesKey w g b0 b1 b2 b3 later =
    exchange-All table_keys w g b0 b1 b2 b3 later All-Sends (
      ground arith,
      (
        ground arith,
        (
          ground arith,
          (ground arith, (ground arith, (ground arith, (ground arith, (ground arith, tt))))),
        ),
      ),
    )

-- A settings command, what the settings must be for it to send anything, the opcode that it expects
-- in the response, and its frame.
abbrev pub Settings : Type 0
Settings = (Btp (Unit {0}) × (Gap → Bool)) × ℕ × Bytes

abbrev pub settings_commands : List Settings
settings_commands =
    (
      (gap_adv_off, λ g. current_settings_get g "Advertising"),
      Gap.gap_stop_advertising,
      1 ∷ Gap.gap_stop_advertising ∷ 0 ∷ 0 ∷ 0 ∷ [],
    )
    ∷ (
      (gap_set_conn, λ g. not (current_settings_get g "Connectable")),
      Gap.gap_set_connectable,
      1 ∷ Gap.gap_set_connectable ∷ 0 ∷ 1 ∷ 0 ∷ 1 ∷ [],
    )
    ∷ (
      (gap_set_nonconn, λ g. current_settings_get g "Connectable"),
      Gap.gap_set_connectable,
      1 ∷ Gap.gap_set_connectable ∷ 0 ∷ 1 ∷ 0 ∷ 0 ∷ [],
    )
    ∷ (
      (gap_set_nondiscov, λ g. current_settings_get g "Discoverable"),
      Gap.gap_set_discoverable,
      1 ∷ Gap.gap_set_discoverable ∷ 0 ∷ 1 ∷ 0 ∷ 0 ∷ [],
    )
    ∷ (
      (gap_set_gendiscov, λ g. true),
      Gap.gap_set_discoverable,
      1 ∷ Gap.gap_set_discoverable ∷ 0 ∷ 1 ∷ 0 ∷ 1 ∷ [],
    )
    ∷ (
      (gap_set_limdiscov, λ g. true),
      Gap.gap_set_discoverable,
      1 ∷ Gap.gap_set_discoverable ∷ 0 ∷ 1 ∷ 0 ∷ 2 ∷ [],
    )
    ∷ (
      (gap_set_powered_on, λ g. true),
      Gap.gap_set_powered,
      1 ∷ Gap.gap_set_powered ∷ 0 ∷ 1 ∷ 0 ∷ 1 ∷ [],
    )
    ∷ (
      (gap_set_powered_off, λ g. true),
      Gap.gap_set_powered,
      1 ∷ Gap.gap_set_powered ∷ 0 ∷ 1 ∷ 0 ∷ 0 ∷ [],
    )
    ∷ []

-- The command sends its frame, takes the response and stores the settings that it reports, where
-- the settings ask for it; otherwise it does nothing.
abbrev pub Exchanges : World → Gap → ℕ → ℕ → ℕ → ℕ → List (Header × Bytes) → Settings → Type 0
Exchanges w g b0 b1 b2 b3 later ((command, wanted), op, frame) =
    let waiting = prepared w g (settings_reply op b0 b1 b2 b3 ∷ later) in
    let done = exchanged w (gap_current_settings_update g (le_value b0 b1 b2 b3)) frame later in
    command waiting ≡ (ok tt, if wanted g then done else waiting)

module _ (b : Bool) (m : Btp (Unit {0})) (w v : World) (run : m w ≡ (ok tt, v)) where
  sends_if : (if b then m else pure tt) w ≡ (ok tt, if b then v else w)
  sends_if = elim (Bool-cases b) [ inl y ↦ rw y run | inr n ↦ rw n refl ]

  sends_unless : (if b then pure tt else m) w ≡ (ok tt, if not b then v else w)
  sends_unless = elim (Bool-cases b) [ inl y ↦ rw y refl | inr n ↦ rw n run ]

-- Each of the eight settings commands, on a response of its opcode with any four bytes. Switching
-- advertising off and the commands set_nonconn and set_nondiscov do nothing unless the setting is
-- there, and set_conn nothing if it is; all others, whatever the settings, and these four otherwise,
-- send exactly their frame, take exactly that response from the queue, and store the settings of
-- the bit field in the four bytes.
pub settings_commands-Exchanges :
    (w : World) (g : Gap) (b0 b1 b2 b3 : ℕ) (later : List (Header × Bytes))
    → All (Exchanges w g b0 b1 b2 b3 later) settings_commands
unfolding gap_adv_off gap_set_conn gap_set_nonconn gap_set_nondiscov gap_set_gendiscov
    gap_set_limdiscov gap_set_powered_on gap_set_powered_off
settings_commands-Exchanges w g b0 b1 b2 b3 later =
    let (adv_off, (conn, (nonconn, (nondiscov, (gendiscov, (limdiscov, (on, (off, _)))))))) =
      table_keys-ExchangesKey w g b0 b1 b2 b3 later in
    (
      sends_if (current_settings_get g "Advertising") _ _ _ adv_off,
      (
        sends_unless (current_settings_get g "Connectable") _ _ _ conn,
        (
          sends_if (current_settings_get g "Connectable") _ _ _ nonconn,
          (
            sends_if (current_settings_get g "Discoverable") _ _ _ nondiscov,
            (gendiscov, (limdiscov, (on, (off, tt)))),
          ),
        ),
      ),
    )

set_conn_skips :
    (w : World) (g : Gap) (frames : List (Header × Bytes))
    → current_settings_get g "Connectable" ≡ true
    → gap_set_conn (prepared w g frames) ≡ (ok tt, prepared w g frames)
unfolding gap_set_conn
set_conn_skips w g frames h = rw h refl

set_conn_sends :
    (w : World) (g : Gap) (frames : List (Header × Bytes))
    → current_settings_get g "Connectable" ≡ false
    → gap_set_conn (prepared w g frames)
      ≡ settings_command "set_conn" Gap.gap_set_connectable (prepared w g frames)
unfolding gap_set_conn
set_conn_sends w g frames h = rw h refl

run_twice :
    (m : Btp (Unit {0})) (w v : World) → m w ≡ (ok tt, v) → m v ≡ (ok tt, v) → (m >> m) w ≡ m w
run_twice m w v h k = rw (h, k) refl

-- If the response to set_conn has the Connectable bit, calling it a second time sends nothing and
-- changes nothing.
pub gap_set_conn_twice :
    (w : World) (g : Gap) (b0 b1 b2 b3 : ℕ) (later : List (Header × Bytes))
    → HasSettings g
    → test_bit (le_value b0 b1 b2 b3) Gap.gap_settings_connectable ≡ true
    → (gap_set_conn >> gap_set_conn)
        (prepared w g (settings_reply Gap.gap_set_connectable b0 b1 b2 b3 ∷ later))
      ≡ gap_set_conn (prepared w g (settings_reply Gap.gap_set_connectable b0 b1 b2 b3 ∷ later))
gap_set_conn_twice w g b0 b1 b2 b3 later h t =
    let frames = settings_reply Gap.gap_set_connectable b0 b1 b2 b3 ∷ later in
    let g' = gap_current_settings_update g (le_value b0 b1 b2 b3) in
    elim (Bool-cases (current_settings_get g "Connectable")) [
      | inl c ↦
          run_twice gap_set_conn (prepared w g frames) (prepared w g frames)
            (set_conn_skips w g frames c) (set_conn_skips w g frames c)
      | inr c ↦
          run_twice gap_set_conn (prepared w g frames)
            (exchanged w g' (1 ∷ Gap.gap_set_connectable ∷ 0 ∷ 1 ∷ 0 ∷ 1 ∷ []) later)
            (set_conn_sends w g frames c ∙ (table_keys-ExchangesKey w g b0 b1 b2 b3 later).1.0)
            (set_conn_skips
              (record w {
                sent = w.sent ++ (1 ∷ Gap.gap_set_connectable ∷ 0 ∷ 1 ∷ 0 ∷ 1 ∷ []) ∷ [];
              })
              g' later ((settings_update-IsSettled g (le_value b0 b1 b2 b3) h).1.0.0 ∙ t))
    ]
