-- ===== src/Defs/Mesh.antt =====
-- pybtp/defs.py: the constants of the Mesh service.
use btptester_core.Prelude.{ℕ}

abbrev pub mesh_read_supported_commands : ℕ
mesh_read_supported_commands = 0x01

abbrev pub mesh_out_blink : ℕ
mesh_out_blink = 0x01

abbrev pub mesh_out_beep : ℕ
mesh_out_beep = 0x02

abbrev pub mesh_out_vibrate : ℕ
mesh_out_vibrate = 0x04

abbrev pub mesh_out_display_number : ℕ
mesh_out_display_number = 0x08

abbrev pub mesh_out_display_string : ℕ
mesh_out_display_string = 0x10

abbrev pub mesh_in_push : ℕ
mesh_in_push = 0x01

abbrev pub mesh_in_twist : ℕ
mesh_in_twist = 0x02

abbrev pub mesh_in_enter_number : ℕ
mesh_in_enter_number = 0x04

abbrev pub mesh_in_enter_string : ℕ
mesh_in_enter_string = 0x08

abbrev pub mesh_config_provisioning : ℕ
mesh_config_provisioning = 0x02

abbrev pub mesh_provision_node : ℕ
mesh_provision_node = 0x03

abbrev pub mesh_init : ℕ
mesh_init = 0x04

abbrev pub mesh_reset : ℕ
mesh_reset = 0x05

abbrev pub mesh_input_number : ℕ
mesh_input_number = 0x06

abbrev pub mesh_input_string : ℕ
mesh_input_string = 0x07

abbrev pub mesh_iv_update_test_mode : ℕ
mesh_iv_update_test_mode = 0x08

abbrev pub mesh_iv_update_toggle : ℕ
mesh_iv_update_toggle = 0x09

abbrev pub mesh_net_send : ℕ
mesh_net_send = 0x0a

abbrev pub mesh_health_add_faults : ℕ
mesh_health_add_faults = 0x0b

abbrev pub mesh_health_clear_faults : ℕ
mesh_health_clear_faults = 0x0c

abbrev pub mesh_lpn_set : ℕ
mesh_lpn_set = 0x0d

abbrev pub mesh_lpn_poll : ℕ
mesh_lpn_poll = 0x0e

abbrev pub mesh_model_send : ℕ
mesh_model_send = 0x0f

abbrev pub mesh_lpn_subscribe : ℕ
mesh_lpn_subscribe = 0x10

abbrev pub mesh_lpn_unsubscribe : ℕ
mesh_lpn_unsubscribe = 0x11

abbrev pub mesh_rpl_clear : ℕ
mesh_rpl_clear = 0x12

abbrev pub mesh_proxy_identity : ℕ
mesh_proxy_identity = 0x13

abbrev pub mesh_ev_out_number_action : ℕ
mesh_ev_out_number_action = 0x80

abbrev pub mesh_ev_out_string_action : ℕ
mesh_ev_out_string_action = 0x81

abbrev pub mesh_ev_in_action : ℕ
mesh_ev_in_action = 0x82

abbrev pub mesh_ev_provisioned : ℕ
mesh_ev_provisioned = 0x83

abbrev pub mesh_prov_bearer_pb_adv : ℕ
mesh_prov_bearer_pb_adv = 0x00

abbrev pub mesh_prov_bearer_pb_gatt : ℕ
mesh_prov_bearer_pb_gatt = 0x01

abbrev pub mesh_ev_prov_link_open : ℕ
mesh_ev_prov_link_open = 0x84

abbrev pub mesh_ev_prov_link_closed : ℕ
mesh_ev_prov_link_closed = 0x85

abbrev pub mesh_ev_net_recv : ℕ
mesh_ev_net_recv = 0x86

abbrev pub mesh_ev_invalid_bearer : ℕ
mesh_ev_invalid_bearer = 0x87

abbrev pub mesh_ev_incomp_timer_exp : ℕ
mesh_ev_incomp_timer_exp = 0x88
