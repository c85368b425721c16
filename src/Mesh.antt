-- ===== src/Mesh.antt =====
-- stack/mesh.py: the state that the Mesh events and commands use. The fields of the health and
-- vendor models and the list of subscriptions, which nothing uses, are not kept here.
use btptester_core.Prelude.{ℕ, Bool, true, false, Option, none, Bytes, Text, List, [], ◌∷◌, ◌++◌}

-- `oob_data` holds a number or a byte string
pub data OobData : Type 0 where
  number : ℕ → OobData
  string : Bytes → OobData

-- ('open', bearer) and ('closed', bearer)
pub data LinkState : Type 0 where
  link_open link_closed : ℕ → LinkState

pub record Mesh : Type 0 where
  pub dev_uuid : Text
  pub static_auth : Text
  pub output_size : ℕ
  pub output_actions : ℕ
  pub input_size : ℕ
  pub input_actions : ℕ
  pub crpl_size : ℕ
  pub oob_action : Option ℕ
  pub oob_data : Option OobData
  pub is_provisioned : Bool
  pub is_initialized : Bool
  pub last_seen_prov_link_state : Option LinkState
  pub prov_invalid_bearer_rcv : Bool
  pub net_key : Text
  pub net_key_idx : ℕ
  pub flags : ℕ
  pub iv_idx : ℕ
  pub seq_num : ℕ
  pub addr : ℕ
  pub dev_key : Text
  pub is_iv_test_mode_enabled : Bool
  pub iv_test_mode_autoinit : Bool
  pub net_recv_ev_store : Bool
  pub net_recv_ev_data : Option (ℕ × ℕ × ℕ × ℕ × Text)
  pub incomp_timer_exp : Bool
  pub proxy_identity : Bool

-- '0123456789abcdef' twice
abbrev pub half_key : Text
half_key =
    b'0' ∷ b'1' ∷ b'2' ∷ b'3' ∷ b'4' ∷ b'5' ∷ b'6' ∷ b'7' ∷ b'8' ∷ b'9' ∷ b'a' ∷ b'b' ∷ b'c' ∷ b'd'
    ∷ b'e' ∷ b'f' ∷ []

abbrev pub default_key : Text
default_key = half_key ++ half_key

-- Mesh(uuid, oob, output_size, output_actions, input_size, input_actions, crpl_size)
unfoldable pub init : Text → Text → ℕ → ℕ → ℕ → ℕ → ℕ → Mesh
init uuid oob output_size output_actions input_size input_actions crpl_size = record {
  dev_uuid = uuid;
  static_auth = oob;
  output_size = output_size;
  output_actions = output_actions;
  input_size = input_size;
  input_actions = input_actions;
  crpl_size = crpl_size;
  oob_action = none;
  oob_data = none;
  is_provisioned = false;
  is_initialized = false;
  last_seen_prov_link_state = none;
  prov_invalid_bearer_rcv = false;
  net_key = default_key;
  net_key_idx = 0;
  flags = 0;
  iv_idx = 0;
  seq_num = 0;
  addr = 0x0b0c;
  dev_key = default_key;
  is_iv_test_mode_enabled = false;
  iv_test_mode_autoinit = false;
  net_recv_ev_store = false;
  net_recv_ev_data = none;
  incomp_timer_exp = false;
  proxy_identity = false;
}

abbrev pub proxy_identity_enable : Mesh → Mesh
proxy_identity_enable m = record m { proxy_identity = true }

-- The first look, then one look after another until the timer clears the flag; the states that
-- the looks find are arguments.
unfoldable pub wait_for_incomp_timer_exp : Mesh → List Mesh → Bool
wait_for_incomp_timer_exp now [] = now.incomp_timer_exp
wait_for_incomp_timer_exp now (m ∷ later) =
    let rest = wait_for_incomp_timer_exp m later in
    elim now.incomp_timer_exp [ true ↦ true | false ↦ rest ]
