-- ===== src/Uuid.antt =====
-- `btp2uuid` of pybtp/btp.py, and the way the commands write a UUID back to bytes.
pub mod RoundTrip
use btptester_core.Prelude.{
  ℕ, ◌++◌, reverse, Bytes, Text, take, drop, length, ◌==◌, if◌then◌else◌, ◌∷◌,
}
use btptester_core.Result.{Result, ok, err, value_error, ◌>>=◌}
use btptester_core.Struct.{u16, unpack}
use btptester_core.Hex.{hexlify, unhexlify, upper, remove_char, format_x, zfill}

-- `uuid.UUID(bytes=b).urn[9:]`, the canonical form: five groups of digits.
unfoldable pub urn_text : Bytes → Text
urn_text b =
    let rest = b'-' ∷ hexlify (drop 10 b) in
    let rest = b'-' ∷ hexlify (take 2 (drop 8 b)) ++ rest in
    let rest = b'-' ∷ hexlify (take 2 (drop 6 b)) ++ rest in
    let rest = b'-' ∷ hexlify (take 2 (drop 4 b)) ++ rest in hexlify (take 4 b) ++ rest

-- ValueError unless there are 16 bytes
unfoldable pub uuid_urn : Bytes → Result Text
uuid_urn b = if length b == 16 then ok (urn_text b) else err value_error

unfoldable pub btp2uuid : ℕ → Bytes → Result Text
unfolding uuid_urn
btp2uuid uuid_len uu =
    if uuid_len == 2
    then (do n ← unpack u16 uu; ok (zfill 4 (upper (format_x n))))
    else (do s ← uuid_urn (reverse uu); ok (upper (remove_char b'-' s)))

-- binascii.unhexlify(uuid.replace("-", ""))[::-1]
unfoldable pub uuid2btp : Text → Result Bytes
uuid2btp uuid = do bs ← unhexlify (remove_char b'-' uuid); ok (reverse bs)
