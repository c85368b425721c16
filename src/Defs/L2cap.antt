-- ===== src/Defs/L2cap.antt =====
-- pybtp/defs.py: the constants of the L2CAP service.
use btptester_core.Prelude.{ℕ}

abbrev pub l2cap_read_supported_commands : ℕ
l2cap_read_supported_commands = 0x01

abbrev pub l2cap_connect : ℕ
l2cap_connect = 0x02

abbrev pub l2cap_disconnect : ℕ
l2cap_disconnect = 0x03

abbrev pub l2cap_send_data : ℕ
l2cap_send_data = 0x04

abbrev pub l2cap_transport_bredr : ℕ
l2cap_transport_bredr = 0x00

abbrev pub l2cap_transport_le : ℕ
l2cap_transport_le = 0x01

abbrev pub l2cap_listen : ℕ
l2cap_listen = 0x05

abbrev pub l2cap_accept_connection : ℕ
l2cap_accept_connection = 0x06

abbrev pub l2cap_ev_connection_req : ℕ
l2cap_ev_connection_req = 0x80

abbrev pub l2cap_ev_connected : ℕ
l2cap_ev_connected = 0x81

abbrev pub l2cap_ev_disconnected : ℕ
l2cap_ev_disconnected = 0x82

abbrev pub l2cap_ev_data_received : ℕ
l2cap_ev_data_received = 0x83
