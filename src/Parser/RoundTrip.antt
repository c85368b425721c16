-- ===== src/Parser/RoundTrip.antt =====
-- Frames: what is encoded is decoded again, and what cannot be encoded.
use btptester_core.Prelude.{ℕ, ◌≤◌, ◌<◌, ◌≡◌, ◌↔◌, ◌⊎◌, Bytes, ◌∷◌, ◌++◌, length, take, drop, arith}
use btptester_core.Result.{ok, err, struct_error}
use btptester_core.Struct.{le16}
use btptester_core.Struct.Laws.{raw_all}
use btptester_core.Parser.{Header, hdr_len, dec_hdr, dec_data, enc_frame}

-- The bytes of a frame.
abbrev pub frame : ℕ → ℕ → ℕ → Bytes → Bytes
frame svc_id op ctrl_index payload = svc_id ∷ op ∷ ctrl_index ∷ le16 (length payload) ++ payload

abbrev pub header : ℕ → ℕ → ℕ → Bytes → Header
header svc_id op ctrl_index payload = record {
  svc_id = svc_id;
  op = op;
  ctrl_index = ctrl_index;
  data_len = length payload;
}

-- Numbers that a frame can carry.
pub record Fits (svc_id op ctrl_index : ℕ) (payload : Bytes) : Type 0 where
  pub svc_fits : svc_id < 256
  pub op_fits : op < 256
  pub index_fits : ctrl_index < 256
  pub length_fits : length payload < 32768

pub enc_frame-frame :
    (svc_id op ctrl_index : ℕ) (payload : Bytes)
    → Fits svc_id op ctrl_index payload
    → enc_frame svc_id op ctrl_index payload ≡ ok (frame svc_id op ctrl_index payload)
unfolding enc_frame
enc_frame-frame s o c p f = ground arith

pub dec_hdr-frame :
    (s o c : ℕ) (p : Bytes) → dec_hdr (take hdr_len (frame s o c p)) ≡ ok (header s o c p)
unfolding dec_hdr
dec_hdr-frame s o c p = ground arith

pub dec_data_lem : (xs : Bytes) → dec_data xs ≡ ok xs
unfolding dec_data
dec_data_lem xs = rw (raw_all xs)

-- If the numbers fit in their fields and the payload is shorter than 32768 bytes, `enc_frame`
-- succeeds, `dec_hdr` reads the same numbers and the payload's length from the first five bytes,
-- and `dec_data` gives the payload back from the others.
pub dec-enc_frame :
    (svc_id op ctrl_index : ℕ) (payload : Bytes)
    → Fits svc_id op ctrl_index payload
    → (binary : Bytes) × (enc_frame svc_id op ctrl_index payload ≡ ok binary)
      × (dec_hdr (take hdr_len binary) ≡ ok (header svc_id op ctrl_index payload))
      × (dec_data (drop hdr_len binary) ≡ ok payload)
dec-enc_frame s o c p f =
    (frame s o c p, enc_frame-frame s o c p f, dec_hdr-frame s o c p, dec_data_lem p)

-- `enc_frame` raises struct.error exactly if one of the three numbers does not fit in a byte or
-- the payload has 32768 bytes or more.
pub enc_frame_error_iff :
    (svc_id op ctrl_index : ℕ) (payload : Bytes)
    → (enc_frame svc_id op ctrl_index payload ≡ err struct_error)
      ↔ ((256 ≤ svc_id) ⊎ (256 ≤ op) ⊎ (256 ≤ ctrl_index) ⊎ (32768 ≤ length payload))
unfolding enc_frame
enc_frame_error_iff s o c p = ground arith
