-- ===== src/Address.antt =====
-- `BleAddress` of stack/gap.py and the byte order of addresses (`addr2btp_ba` of pybtp/types.py;
-- the event handlers of pybtp/btp.py read addresses by `ble_from_wire`).
pub mod Wire
use btptester_core.Prelude.{ℕ, Bool, ◌&&◌, List, ◌++◌, ◌∷◌, reverse, Bytes, Text, text_eq, ◌==◌}
use btptester_core.Result.{Result, ok, ◌>>=◌}
use btptester_core.Struct.{to_byte}
use btptester_core.Hex.{hexlify, unhexlify, lower, split, join}

pub record BleAddress : Type 0 where
  pub addr : Text
  pub addr_type : ℕ

-- BleAddress(addr, addr_type)
unfoldable pub ble_address : Text → ℕ → BleAddress
ble_address addr addr_type = record { addr = lower addr; addr_type = addr_type }

-- __eq__
unfoldable pub ble_eq : BleAddress → BleAddress → Bool
ble_eq a b = (a.addr_type == b.addr_type) && text_eq a.addr b.addr

unfoldable pub addr2btp_ba : Text → Result Bytes
addr2btp_ba addr_str = do bs ← unhexlify (join (split b':' addr_str)); ok (reverse bs)

-- __bytes__ and __iter__
unfoldable pub ble_bytes : BleAddress → Result Bytes
ble_bytes a = do
  bd_addr_ba ← addr2btp_ba a.addr
  addr_type ← to_byte a.addr_type
  ok (addr_type ++ bd_addr_ba)

-- addr = binascii.hexlify(addr[::-1]).decode(); BleAddress(addr, addr_type)
unfoldable pub ble_from_wire : ℕ → Bytes → BleAddress
unfolding ble_address
ble_from_wire addr_type addr = ble_address (hexlify (reverse addr)) addr_type
