-- ===== src/Commands/Gap/Named.antt =====
-- What `gap_read_ctrl_info` makes of the controller's answer.
use btptester_core.Prelude.{
  ℕ, zero, suc, ◌-◌, ◌≡◌, ◌<◌, ◌≤◌, ◌∙◌, refl, ap, some, List, [], ◌∷◌, ◌++◌, All, Bytes, Text,
  arith, length, length-append, reverse,
}
use btptester_core.Result.{ok}
use btptester_core.Struct.{le32, raw}
use btptester_core.Struct.Laws.{raw-length-append}
use btptester_core.Hex.{lower, hexlify}
use btptester_core.Text8.{decode, decode_from, step, first_byte}
use btptester_core.Text8.RoundTrip.{onto, decode-encode-append}
use btptester_core.Parser.{Header, enc_frame}
use btptester_core.Defs.Gap as Ops
use btptester_core.Defs.Core.{btp_service_id_gap}
use btptester_core.Address.{ble_address}
use btptester_core.Gap.{Gap, address}
use btptester_core.Dict
use btptester_core.Events.Gap.{gap_current_settings_update}
use btptester_core.Worker.{World, read, encode, send_from, send, data_bytes}
use btptester_core.Commands.Response.{btp_hdr_check, gap_command_rsp_succ}
use btptester_core.Commands.Gap.Wire.{gap_reply}
use btptester_core.Commands.Gap.Info.{
  ctrl_info, rstrip_zeros, own_addr_type, check_ctrl_info_len, gap_read_ctrl_info,
}

unfoldable pub nul : ℕ → Bytes
nul zero = []
nul (suc k) = 0 ∷ nul k

-- a field of n bytes, filled with zeros
unfoldable pub padded : ℕ → Bytes → Bytes
padded n b = b ++ nul (n - length b)

length-nul : (k : ℕ) → length (nul k) ≡ k
unfolding nul
length-nul zero = refl
length-nul (suc k) = ap suc (length-nul k)

length-padded : (n : ℕ) (b : Bytes) → length b ≤ n → length (padded n b) ≡ n
unfolding padded
length-padded n b h =
    ground (arith, length-append b (nul (n - length b)), length-nul (n - length b))

decode-nul : (k : ℕ) → decode (nul k) ≡ ok (nul k)
unfolding nul decode decode_from step first_byte
decode-nul zero = refl
decode-nul (suc k) = ground (arith, decode-nul k)

rstrip_zeros-nul : (t : Text) (k : ℕ) → rstrip_zeros (t ++ nul k) ≡ rstrip_zeros t
unfolding nul rstrip_zeros
rstrip_zeros-nul [] zero = refl
rstrip_zeros-nul [] (suc k) = ground (arith, rstrip_zeros-nul [] k)
rstrip_zeros-nul (c ∷ t) k = rw (rstrip_zeros-nul t k) refl

-- the name in a field is decoded with its filling
decode-padded :
    (n : ℕ) (t : Text) (b : Bytes)
    → All (λ c. c < 0x110000) t
    → encode t ≡ ok b
    → decode (padded n b) ≡ ok (t ++ nul (n - length b))
unfolding padded
decode-padded n t b a e =
    decode-encode-append t b (nul (n - length b)) a e ∙ ap (onto t) (decode-nul (n - length b))

raw_exactly : (n : ℕ) (xs rest : Bytes) → length xs ≡ n → raw n (xs ++ rest) ≡ ok (xs, rest)
raw_exactly n xs rest h = rw⁻¹ h (raw-length-append xs rest)

-- The answer: address, supported and current settings, class of device, the two names, and what
-- may follow.
abbrev pub info_payload : Bytes → ℕ → ℕ → Bytes → Bytes → Bytes → Bytes → Bytes
info_payload addr supp curr cod name short rest =
    addr ++ (le32 supp ++ (le32 curr ++ (cod ++ (padded 249 name ++ (padded 11 short ++ rest)))))

ctrl_info-payload :
    (addr : Bytes) (supp curr : ℕ) (cod name short rest : Bytes)
    → length addr ≡ 6
    → length cod ≡ 3
    → length name ≤ 249
    → length short ≤ 11
    → ctrl_info (info_payload addr supp curr cod name short rest)
      ≡ ok ((addr, supp, curr, cod, padded 249 name, padded 11 short), rest)
unfolding ctrl_info
ctrl_info-payload addr supp curr cod name short rest ha hc hn hs =
    let q = padded 249 name ++ (padded 11 short ++ rest) in
    ground (
      arith,
      raw_exactly 6 addr (le32 supp ++ (le32 curr ++ (cod ++ q))) ha,
      raw_exactly 3 cod q hc,
      raw_exactly 249 (padded 249 name) (padded 11 short ++ rest) (length-padded 249 name hn),
      raw_exactly 11 (padded 11 short) rest (length-padded 11 short hs),
    )

length-info_payload :
    (addr : Bytes) (supp curr : ℕ) (cod name short rest : Bytes)
    → length addr ≡ 6
    → length cod ≡ 3
    → length name ≤ 249
    → length short ≤ 11
    → check_ctrl_info_len (info_payload addr supp curr cod name short rest) ≡ ok tt
unfolding check_ctrl_info_len
length-info_payload addr supp curr cod name short rest ha hc hn hs =
    let q = padded 249 name ++ (padded 11 short ++ rest) in
    ground (
      arith,
      length-append addr (le32 supp ++ (le32 curr ++ (cod ++ q))),
      length-append cod q,
      length-append (padded 249 name) (padded 11 short ++ rest),
      length-append (padded 11 short) rest,
      length-padded 249 name hn,
      length-padded 11 short hs,
      ha,
      hc,
    )

-- the world before the command and behind it
abbrev pub asked : Bytes → List (Header × Bytes) → Gap → World → World
asked dat later g w = record w {
  stack = record w.stack { gap = some g };
  rx_queue = gap_reply Ops.gap_read_controller_info dat ∷ later;
}

abbrev pub told : List (Header × Bytes) → Gap → World → World
told later g w = record w {
  stack = record w.stack { gap = some g };
  sent = w.sent ++ (btp_service_id_gap ∷ Ops.gap_read_controller_info ∷ 0 ∷ 0 ∷ 0 ∷ []) ∷ [];
  rx_queue = later;
}

-- `gap_read_ctrl_info` on an answer with an address, settings and two names in UTF-8 that are
-- filled up with zeros, where the names have an encoding that fits their fields and do not end in a
-- zero: the command is sent, the names are stored as they were before their encoding, the address
-- in hexadecimal digits with the type that the settings tell, and the settings; bytes behind the
-- names are ignored.
pub gap_read_ctrl_info-info_payload :
    (w : World) (g : Gap) (later : List (Header × Bytes)) (addr : Bytes) (supp curr : ℕ)
    (cod rest : Bytes) (name short : Text) (nb sb : Bytes)
    → length addr ≡ 6
    → length cod ≡ 3
    → All (λ c. c < 0x110000) name
    → All (λ c. c < 0x110000) short
    → encode name ≡ ok nb
    → encode short ≡ ok sb
    → length nb ≤ 249
    → length sb ≤ 11
    → rstrip_zeros name ≡ name
    → rstrip_zeros short ≡ short
    → let found = record g {
      name = some name;
      name_short = some short;
      iut_bd_addr = address (ble_address (lower (hexlify (reverse addr))) (own_addr_type curr));
    } in
      gap_read_ctrl_info (asked (info_payload addr supp curr cod nb sb rest) later g w)
      ≡ (ok tt, told later (gap_current_settings_update found curr) w)
unfolding gap_read_ctrl_info gap_command_rsp_succ read btp_hdr_check send_from send data_bytes
    enc_frame Dict.get
gap_read_ctrl_info-info_payload w g later addr supp curr cod rest name short nb sb ha hc kn ks en es
      ln ls rn rs =
    ground (
      arith,
      length-info_payload addr supp curr cod nb sb rest ha hc ln ls,
      ctrl_info-payload addr supp curr cod nb sb rest ha hc ln ls,
      decode-padded 249 name nb kn en,
      decode-padded 11 short sb ks es,
      rstrip_zeros-nul name (249 - length nb),
      rstrip_zeros-nul short (11 - length sb),
      rn,
      rs,
    )
