-- ===== src/Parser.antt =====
-- pybtp/parser.py: the five-byte header of a BTP frame and the frame itself.
pub mod RoundTrip
use btptester_core.Prelude.{ℕ, Bytes, ◌∷◌, ◌++◌, length}
use btptester_core.Result.{Result, ok, ◌>>=◌}
use btptester_core.Struct
use btptester_core.Struct.{Reader, u8, u16, raw, unpack, pack_u8, pack_i16}

-- HDR_LEN
abbrev pub hdr_len : ℕ
hdr_len = 5

pub record Header : Type 0 where
  pub svc_id : ℕ
  pub op : ℕ
  pub ctrl_index : ℕ
  pub data_len : ℕ

-- '<BBBH'
abbrev b_b_b_h : Reader Header
b_b_b_h = Struct.◌>>=◌ u8 λ s. Struct.◌>>=◌ u8 λ o. Struct.◌>>=◌ u8 λ c.
    Struct.◌>>=◌ u16 λ n. Struct.pure (record { svc_id = s; op = o; ctrl_index = c; data_len = n })

unfoldable pub dec_hdr : Bytes → Result Header
dec_hdr binary = unpack b_b_b_h binary

-- The program keeps the payload as a tuple of one byte string; here it is the string.
unfoldable pub dec_data : Bytes → Result Bytes
unfolding raw
dec_data binary = unpack (raw (length binary)) binary

-- The length is packed by 'h', which is signed; the three numbers by 'B'.
unfoldable pub enc_frame : ℕ → ℕ → ℕ → Bytes → Result Bytes
enc_frame svc_id op ctrl_index payload = do
  hex_len ← pack_i16 (length payload)
  s ← pack_u8 svc_id
  o ← pack_u8 op
  c ← pack_u8 ctrl_index
  ok (s ++ o ++ c ++ hex_len ++ payload)
