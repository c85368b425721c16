-- ===== src/Commands/Mesh.antt =====
-- The Mesh commands of pybtp/btp.py. All but one wait for the response by `send_wait_rsp`.
use btptester_core.Prelude.{
  ℕ, ◌+◌, ◌*◌, ◌-◌, Bool, true, false, ◌&&◌, Option, none, some, [], ◌∷◌, ◌++◌, Bytes, Text, String,
  length, take, leb, ltb, if◌then◌else◌,
}
use btptester_core.Result
use btptester_core.Result.{Result, ok, type_error, value_error, btp_error}
use btptester_core.Struct
use btptester_core.Struct.{
  Reader, u8, raw, pack_u8, pack_u16, pack_u32, unpack_from, unpack_from_at,
}
use btptester_core.Hex.{hexlify, unhexlify}
use btptester_core.GattDb.Handles.{Handle}
use btptester_core.Mesh.{Mesh}
use btptester_core.Exec.{pure, lift, of_option, modify, ◌>>=◌, ◌>>◌}
use btptester_core.Worker.{Btp, send_from, send_wait_rsp, read}
use btptester_core.Commands.Table.{bytes}
use btptester_core.Commands.Table.Mesh.{mesh}
use btptester_core.Commands.Args.{Val, str_val, bytes_val, Number, int, digits, hdl_int}

-- `iutctl.stack.mesh`, where an attribute of it is used next
abbrev pub the_mesh : Btp Mesh
the_mesh w = of_option w.stack.mesh w

abbrev put_mesh : Mesh → Btp (Unit {0})
put_mesh m = modify (λ w. record w { stack = record w.stack { mesh = some m } })

-- a command of the table with its payload, or with the payload that the table has
abbrev pub wait_rsp : String → Option Bytes → Btp Bytes
wait_rsp key none = send_wait_rsp mesh key none
wait_rsp key (some dat) = send_wait_rsp mesh key (some (bytes dat))

-- struct.pack('16s', b): cut, or filled with zeros
abbrev zeros : Bytes
zeros = 0 ∷ 0 ∷ 0 ∷ 0 ∷ 0 ∷ 0 ∷ 0 ∷ 0 ∷ 0 ∷ 0 ∷ 0 ∷ 0 ∷ 0 ∷ 0 ∷ 0 ∷ 0 ∷ []

abbrev pub pack_16s : Bytes → Bytes
pack_16s b = take 16 (b ++ zeros)

unfoldable pub mesh_config_prov : Btp (Unit {0})
unfolding send_wait_rsp
mesh_config_prov = do
  m ← the_mesh
  uuid ← lift (unhexlify m.dev_uuid)
  static_auth ← lift (unhexlify m.static_auth)
  out_size ← lift (pack_u8 m.output_size)
  out_actions ← lift (pack_u16 m.output_actions)
  in_size ← lift (pack_u8 m.input_size)
  in_actions ← lift (pack_u16 m.input_actions)
  _ ← wait_rsp "config_prov" (
      some
        (pack_16s uuid ++ pack_16s static_auth ++ out_size ++ out_actions ++ in_size ++ in_actions))
  pure tt

unfoldable pub mesh_prov_node : Btp (Unit {0})
unfolding send_wait_rsp
mesh_prov_node = do
  m ← the_mesh
  net_key ← lift (unhexlify m.net_key)
  dev_key ← lift (unhexlify m.dev_key)
  net_key_idx ← lift (pack_u16 m.net_key_idx)
  flags ← lift (pack_u8 m.flags)
  iv_idx ← lift (pack_u32 m.iv_idx)
  seq_num ← lift (pack_u32 m.seq_num)
  addr ← lift (pack_u16 m.addr)
  _ ← wait_rsp "prov_node" (
      some
        (pack_16s net_key ++ net_key_idx ++ flags ++ iv_idx ++ seq_num ++ addr ++ pack_16s dev_key))
  pure tt

abbrev enable_byte : Bool → Bytes
enable_byte true = 0x01 ∷ []
enable_byte false = 0x00 ∷ []

unfoldable pub mesh_iv_update_test_mode : Bool → Btp (Unit {0})
unfolding send_wait_rsp
mesh_iv_update_test_mode enable = do
  _ ← wait_rsp "iv_update_test_mode" (some (enable_byte enable))
  m ← the_mesh
  put_mesh (record m { is_iv_test_mode_enabled = true })

unfoldable pub mesh_init : Btp (Unit {0})
unfolding send_wait_rsp mesh_iv_update_test_mode
mesh_init = do
  _ ← wait_rsp "init" none
  m ← the_mesh
  put_mesh (record m { is_initialized = true })
  if m.iv_test_mode_autoinit then mesh_iv_update_test_mode true else pure tt

unfoldable pub mesh_reset : Btp (Unit {0})
unfolding send_wait_rsp
mesh_reset = do
  _ ← wait_rsp "reset" none
  m ← the_mesh
  put_mesh (record m { is_provisioned = false; is_initialized = false })

unfoldable pub dec_value : ℕ → Text → Result ℕ
dec_value acc [] = ok acc
dec_value acc (c ∷ s) =
    let rest = dec_value (acc * 10 + (c - 48)) s in
    if leb b'0' c && leb c b'9' then rest else Result.err value_error

-- int(number) for a text without blanks, sign and underscores
unfoldable pub number_int : Number → Result ℕ
unfolding dec_value
number_int (int n) = ok n
number_int (digits []) = Result.err value_error
number_int (digits (c ∷ s)) = dec_value 0 (c ∷ s)

unfoldable pub mesh_input_number : Number → Btp (Unit {0})
unfolding send_wait_rsp
mesh_input_number number = do
  n ← lift (number_int number)
  dat ← lift (pack_u32 n)
  _ ← wait_rsp "input_num" (some dat)
  pure tt

-- bytearray(string): a text has no bytes without an encoding
abbrev string_ba : Val → Result Bytes
string_ba (str_val s) = Result.err type_error
string_ba (bytes_val s) = ok s

unfoldable pub mesh_input_string : Val → Btp (Unit {0})
unfolding send_wait_rsp
mesh_input_string string = do
  dat ← lift (string_ba string)
  _ ← wait_rsp "input_str" (some dat)
  pure tt

-- The response is read and not checked; a status is only logged.
unfoldable pub mesh_iv_update_toggle : Btp (Unit {0})
mesh_iv_update_toggle = do send_from mesh "iv_update_toggle" none; _ ← read; pure tt

abbrev ttl_int : Option Handle → Result ℕ
ttl_int none = ok 0xff
ttl_int (some ttl) = hdl_int ttl

-- the payload of a message, at most 255 bytes
unfoldable pub payload_ba : Text → Result Bytes
payload_ba payload =
    Result.◌>>=◌ (unhexlify payload) λ b. if ltb 0xff (length b) then Result.err btp_error else ok b

unfoldable pub mesh_net_send : Option Handle → Handle → Handle → Text → Btp (Unit {0})
unfolding send_wait_rsp payload_ba
mesh_net_send ttl src dst payload = do
  t ← lift (ttl_int ttl)
  s ← lift (hdl_int src)
  d ← lift (hdl_int dst)
  p ← lift (payload_ba payload)
  ttl_ba ← lift (pack_u8 t)
  src_ba ← lift (pack_u16 s)
  dst_ba ← lift (pack_u16 d)
  len_ba ← lift (pack_u8 (length p))
  _ ← wait_rsp "net_send" (some (ttl_ba ++ src_ba ++ dst_ba ++ len_ba ++ p))
  pure tt

abbrev b_b_b : Reader (ℕ × ℕ × ℕ)
b_b_b = Struct.◌>>=◌ u8 λ a. Struct.◌>>=◌ u8 λ b. Struct.◌>>=◌ u8 λ c. Struct.pure (a, b, c)

-- test id, current faults and registered faults
unfoldable pub mesh_health_generate_faults : Btp (ℕ × Text × Text)
unfolding send_wait_rsp raw
mesh_health_generate_faults = do
  rsp ← wait_rsp "health_generate_faults" none
  (test_id, cur_faults_cnt, reg_faults_cnt) ← lift (unpack_from b_b_b rsp)
  cur_faults ← lift (unpack_from_at (raw cur_faults_cnt) rsp 3)
  reg_faults ← lift (unpack_from_at (raw reg_faults_cnt) rsp (3 + cur_faults_cnt))
  pure (test_id, hexlify cur_faults, hexlify reg_faults)

unfoldable pub mesh_health_clear_faults : Btp (Unit {0})
mesh_health_clear_faults = do _ ← wait_rsp "mesh_clear_faults" none; pure tt

unfoldable pub mesh_lpn : Bool → Btp (Unit {0})
mesh_lpn enable = do _ ← wait_rsp "lpn" (some (enable_byte enable)); pure tt

unfoldable pub mesh_lpn_poll : Btp (Unit {0})
mesh_lpn_poll = do _ ← wait_rsp "lpn_poll" none; pure tt

unfoldable pub mesh_model_send : Handle → Handle → Text → Btp (Unit {0})
unfolding send_wait_rsp payload_ba
mesh_model_send src dst payload = do
  s ← lift (hdl_int src)
  d ← lift (hdl_int dst)
  p ← lift (payload_ba payload)
  src_ba ← lift (pack_u16 s)
  dst_ba ← lift (pack_u16 d)
  len_ba ← lift (pack_u8 (length p))
  _ ← wait_rsp "model_send" (some (src_ba ++ dst_ba ++ len_ba ++ p))
  pure tt

unfoldable pub mesh_lpn_subscribe : Handle → Btp (Unit {0})
unfolding send_wait_rsp
mesh_lpn_subscribe address = do
  a ← lift (hdl_int address)
  dat ← lift (pack_u16 a)
  _ ← wait_rsp "lpn_subscribe" (some dat)
  pure tt

unfoldable pub mesh_lpn_unsubscribe : Handle → Btp (Unit {0})
unfolding send_wait_rsp
mesh_lpn_unsubscribe address = do
  a ← lift (hdl_int address)
  dat ← lift (pack_u16 a)
  _ ← wait_rsp "lpn_unsubscribe" (some dat)
  pure tt

unfoldable pub mesh_rpl_clear : Btp (Unit {0})
mesh_rpl_clear = do _ ← wait_rsp "rpl_clear" none; pure tt

unfoldable pub mesh_proxy_identity : Btp (Unit {0})
mesh_proxy_identity = do _ ← wait_rsp "proxy_identity" none; pure tt

unfoldable pub mesh_store_net_data : Btp (Unit {0})
mesh_store_net_data = do m ← the_mesh; put_mesh (record m { net_recv_ev_store = true })

unfoldable pub mesh_iv_test_mode_autoinit : Btp (Unit {0})
mesh_iv_test_mode_autoinit = do m ← the_mesh; put_mesh (record m { iv_test_mode_autoinit = true })
