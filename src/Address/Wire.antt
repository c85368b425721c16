-- ===== src/Address/Wire.antt =====
-- Addresses on the wire and as `BleAddress`.
use btptester_core.Prelude.{
  ℕ, ◌≡◌, ◌↔◌, refl, true, Bytes, IsBytes, ◌∷◌, reverse, reverse-reverse, arith, text_eq_iff,
  All-reverse, ◌<◌, lt→ltb,
}
use btptester_core.Result.{ok}
use btptester_core.Hex.{hexlify}
use btptester_core.Hex.Laws.{unhexlify-hexlify, lower-hexlify, join-split, hexlify-Lacks_colon}
use btptester_core.Address.{BleAddress, ble_eq, addr2btp_ba, ble_bytes, ble_from_wire}

pub ble_eq_iff : (a b : BleAddress) → (ble_eq a b ≡ true) ↔ (a ≡ b)
unfolding ble_eq
ble_eq_iff a b = ground (arith, text_eq_iff a.addr b.addr)

pub ble_eq_refl : (a : BleAddress) → ble_eq a a ≡ true
ble_eq_refl a = (ble_eq_iff a a).1 refl

pub ble_from_wire-hexlify :
    (t : ℕ) (bs : Bytes)
    → IsBytes bs
    → ble_from_wire t bs ≡ record { addr = hexlify (reverse bs); addr_type = t }
unfolding ble_from_wire
ble_from_wire-hexlify t bs h = rw (lower-hexlify (reverse bs) (All-reverse _ bs h))

-- The address bytes of an event, read into a `BleAddress` and written again for a command, are
-- the same bytes in the same order, behind the address type.
pub ble_bytes-from_wire :
    (t : ℕ) (bs : Bytes) → t < 256 → IsBytes bs → ble_bytes (ble_from_wire t bs) ≡ ok (t ∷ bs)
unfolding ble_bytes addr2btp_ba
ble_bytes-from_wire t bs ht h = rw (
  ble_from_wire-hexlify t bs h,
  join-split b':' (hexlify (reverse bs)) (hexlify-Lacks_colon _ (All-reverse _ bs h)),
  unhexlify-hexlify (reverse bs) (All-reverse _ bs h),
  reverse-reverse bs,
  lt→ltb t 256 ht,
)
