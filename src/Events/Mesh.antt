-- ===== src/Events/Mesh.antt =====
-- The Mesh event handlers of pybtp/btp.py. They return None.
use btptester_core.Prelude.{ℕ, true, some, Bytes, if◌then◌else◌}
use btptester_core.Result.{type_error}
use btptester_core.Struct
use btptester_core.Struct.{Reader, u8, u16, u32, raw, unpack, unpack_from, unpack_from_at}
use btptester_core.Hex.{hexlify}
use btptester_core.Mesh.{Mesh, number, string, link_open, link_closed}
use btptester_core.Stack.{Stack}
use btptester_core.Exec.{Exec, pure, raise, lift, of_option, modify, ◌>>=◌, ◌>>◌}
use btptester_core.Events.Args.{Handler, nothing}

-- '<HI', '<HB' and '<BBHHB'
abbrev h_i : Reader (ℕ × ℕ)
h_i = Struct.◌>>=◌ u16 λ a. Struct.◌>>=◌ u32 λ b. Struct.pure (a, b)

abbrev h_b : Reader (ℕ × ℕ)
h_b = Struct.◌>>=◌ u16 λ a. Struct.◌>>=◌ u8 λ b. Struct.pure (a, b)

abbrev b_b_h_h_b : Reader (ℕ × ℕ × ℕ × ℕ × ℕ)
b_b_h_h_b = Struct.◌>>=◌ u8 λ a. Struct.◌>>=◌ u8 λ b.
    Struct.◌>>=◌ u16 λ c. Struct.◌>>=◌ u16 λ d. Struct.◌>>=◌ u8 λ e. Struct.pure (a, b, c, d, e)

-- `stack.mesh`, where an attribute of it is used next
abbrev the_mesh : Exec Stack Mesh
the_mesh s = of_option s.mesh s

abbrev put_mesh : Mesh → Exec Stack (Unit {0})
put_mesh m = modify (λ s. record s { mesh = some m })

unfoldable pub mesh_out_number_action_ev : Bytes → Handler
mesh_out_number_action_ev dat = do
  (action, n) ← lift (unpack_from h_i dat)
  mesh ← the_mesh
  put_mesh (record mesh { oob_action = some action; oob_data = some (number n) })
  pure nothing

unfoldable pub mesh_out_string_action_ev : Bytes → Handler
mesh_out_string_action_ev dat = do
  str_len ← lift (unpack_from u8 dat)
  s ← lift (unpack_from_at (raw str_len) dat 1)
  mesh ← the_mesh
  put_mesh (record mesh { oob_data = some (string s) })
  pure nothing

unfoldable pub mesh_in_action_ev : Bytes → Handler
mesh_in_action_ev dat = do (action, size) ← lift (unpack h_b dat); pure nothing

-- `mesh_proxy_identity()` lacks its argument, which is a TypeError
unfoldable pub mesh_provisioned_ev : Bytes → Handler
mesh_provisioned_ev dat = do
  mesh ← the_mesh
  put_mesh (record mesh { is_provisioned = true })
  if mesh.proxy_identity then raise type_error else pure nothing

unfoldable pub mesh_prov_link_open_ev : Bytes → Handler
mesh_prov_link_open_ev dat = do
  bearer ← lift (unpack u8 dat)
  mesh ← the_mesh
  put_mesh (record mesh { last_seen_prov_link_state = some (link_open bearer) })
  pure nothing

unfoldable pub mesh_prov_link_closed_ev : Bytes → Handler
mesh_prov_link_closed_ev dat = do
  bearer ← lift (unpack u8 dat)
  mesh ← the_mesh
  put_mesh (record mesh { last_seen_prov_link_state = some (link_closed bearer) })
  pure nothing

unfoldable pub mesh_net_rcv_ev : Bytes → Handler
mesh_net_rcv_ev dat = do
  mesh ← the_mesh
  if mesh.net_recv_ev_store
      then (do
        (ttl, ctl, src, dst, payload_len) ← lift (unpack_from b_b_h_h_b dat)
        payload ← lift (unpack_from_at (raw payload_len) dat 7)
        put_mesh (record mesh { net_recv_ev_data = some (ttl, ctl, src, dst, hexlify payload) })
        pure nothing)
      else pure nothing

unfoldable pub mesh_invalid_bearer_ev : Bytes → Handler
mesh_invalid_bearer_ev dat = do
  opcode ← lift (unpack_from u8 dat)
  mesh ← the_mesh
  put_mesh (record mesh { prov_invalid_bearer_rcv = true })
  pure nothing

unfoldable pub mesh_incomp_timer_exp_ev : Bytes → Handler
mesh_incomp_timer_exp_ev dat = do
  mesh ← the_mesh
  put_mesh (record mesh { incomp_timer_exp = true })
  pure nothing
