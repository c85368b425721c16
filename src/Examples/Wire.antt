-- ===== src/Examples/Wire.antt =====
-- Frames, addresses, UUIDs and advertising data at concrete inputs.
use btptester_core.Prelude.{
  ℕ, ◌≡◌, ◌≢◌, ◌↔◌, ◌⊎◌, inl, ◌≤◌, refl, none, some, [], ◌∷◌, ◌++◌, Bytes, take, drop, length,
  reverse, arith,
}
use btptester_core.Result.{ok, err, struct_error, socket_timeout, ◌>>=◌}
use btptester_core.Parser.{hdr_len, dec_hdr, dec_data, enc_frame}
use btptester_core.Parser.RoundTrip.{header, dec-enc_frame, enc_frame_error_iff}
use btptester_core.Socket.{Conn, read}
use btptester_core.Socket.Gather.{stream, IsOpen}
use btptester_core.Socket.Frames.{read-frame, read_timeout_drops, read_closed_spins}
use btptester_core.Uuid.{btp2uuid, uuid2btp}
use btptester_core.Uuid.RoundTrip.{uuid2btp-btp2uuid}
use btptester_core.Hex.{upper, hexlify}
use btptester_core.Ad.{parse_ad}
use btptester_core.Ad.RoundTrip.{enc_ad, parse_ad-enc_ad, parse_ad_ends}
use btptester_core.Decode.{AttrType, gatt_cl_dec_disc_rsp}
use btptester_core.Decode.RoundTrip.{enc_disc_rsp, gatt_cl_dec_disc_rsp-enc}

abbrev set_powered : Bytes
set_powered = 1 ∷ []

dec-enc_frame_example :
    (binary : Bytes) × (enc_frame 1 5 0 set_powered ≡ ok binary)
    × (dec_hdr (take hdr_len binary) ≡ ok (header 1 5 0 set_powered))
    × (dec_data (drop hdr_len binary) ≡ ok set_powered)
dec-enc_frame_example = dec-enc_frame 1 5 0 set_powered (record {
  svc_fits = omega arith;
  op_fits = omega arith;
  index_fits = omega arith;
  length_fits = omega arith;
})

enc_frame_error_iff_example :
    (enc_frame 1 256 0 [] ≡ err struct_error)
    ↔ ((256 ≤ 1) ⊎ (256 ≤ 256) ⊎ (256 ≤ 0) ⊎ (32768 ≤ length {A = ℕ} []))
enc_frame_error_iff_example = enc_frame_error_iff 1 256 0 []

-- a frame in three pieces, and the first byte of the next one
abbrev pieces : Conn
pieces = (1 ∷ 6 ∷ []) ∷ (0 ∷ 2 ∷ 0 ∷ 7 ∷ []) ∷ (8 ∷ 1 ∷ []) ∷ []

read-frame_example :
    (conn' : Conn) × (read 6 pieces ≡ some (ok (header 1 6 0 (7 ∷ 8 ∷ []), 7 ∷ 8 ∷ []), conn'))
    × (stream conn' ≡ 1 ∷ [])
    × IsOpen conn'
read-frame_example =
    read-frame 6 1 6 0 (7 ∷ 8 ∷ []) (1 ∷ []) pieces (ground arith) refl (omega arith) (omega arith)

abbrev half : Bytes
half = 1 ∷ 6 ∷ 0 ∷ []

read_timeout_drops_example : read 6 (half ∷ []) ≡ some (err socket_timeout, [])
read_timeout_drops_example =
    read_timeout_drops 6 1 6 0 (7 ∷ []) half (1 ∷ 0 ∷ 7 ∷ []) (half ∷ []) (ground arith) refl refl
      (ground arith) (omega arith) (omega arith)

read_closed_spins_example : read 100 ([] ∷ []) ≡ none
read_closed_spins_example = read_closed_spins 100

abbrev octets : Bytes
octets = 0x11 ∷ 0x22 ∷ 0xaa ∷ 0xbb ∷ 0xcc ∷ 0xdd ∷ []

abbrev heart_rate : Bytes
heart_rate = 0x0d ∷ 0x18 ∷ []

uuid2btp-btp2uuid_example : (btp2uuid 2 heart_rate >>= uuid2btp) ≡ ok heart_rate
uuid2btp-btp2uuid_example = uuid2btp-btp2uuid heart_rate (inl refl) (ground arith)

parse_ad-enc_ad_example :
    parse_ad (enc_ad ((1, 6 ∷ []) ∷ (3, heart_rate) ∷ []))
    ≡ some (ok ((1, 6 ∷ []) ∷ (3, heart_rate) ∷ []))
parse_ad-enc_ad_example = parse_ad-enc_ad ((1, 6 ∷ []) ∷ (3, heart_rate) ∷ [])

parse_ad_ends_example : parse_ad (5 ∷ 1 ∷ []) ≢ none
parse_ad_ends_example = parse_ad_ends (5 ∷ 1 ∷ [])

gatt_cl_dec_disc_rsp-enc_example :
    gatt_cl_dec_disc_rsp AttrType.service
      (enc_disc_rsp AttrType.service ((1, 9, heart_rate) ∷ []) ++ [])
    ≡ ok ((1, 9, upper (hexlify (reverse heart_rate))) ∷ [])
gatt_cl_dec_disc_rsp-enc_example =
    gatt_cl_dec_disc_rsp-enc AttrType.service ((1, 9, heart_rate) ∷ []) [] (ground arith)
