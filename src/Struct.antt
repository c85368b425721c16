-- ===== src/Struct.antt =====
-- The struct module as the program uses it. A format is a `Reader`: it takes its fields off the
-- front of a byte string. `unpack` wants the whole string read, `unpack_from` leaves a rest.
pub mod Laws
pub mod Formats
use btptester_core.Prelude.{
  ℕ, zero, suc, ◌+◌, ◌*◌, ◌/◌, ◌%◌, Bytes, List, [], ◌∷◌, ◌++◌, ltb, drop, if◌then◌else◌,
}
use btptester_core.Result.{Result, ok, err, struct_error, value_error}

abbrev pub Reader : Type 0 → Type 0
Reader A = Bytes → Result (A × Bytes)

module _ {A B : Type 0} where
  abbrev after : Result (A × Bytes) → (A → Reader B) → Result (B × Bytes)
  after (ok (a, rest)) f = f a rest
  after (err e) f = err e

  infixl 5 ◌>>=◌
  abbrev pub ◌>>=◌ : Reader A → (A → Reader B) → Reader B
  ◌>>=◌ r f xs = after (r xs) f

abbrev pub pure : {A : Type 0} → A → Reader A
pure a xs = ok (a, xs)

-- 'B'
abbrev pub u8 : Reader ℕ
u8 [] = err struct_error
u8 (a ∷ rest) = ok (a, rest)

-- '<H'; the formats written 'H' are native, which is little-endian on the hosts of the program
abbrev pub u16 : Reader ℕ
u16 (a ∷ b ∷ rest) = ok (a + 256 * b, rest)
u16 _ = err struct_error

-- '<I'
abbrev pub u32 : Reader ℕ
u32 (a ∷ b ∷ c ∷ d ∷ rest) = ok (a + 256 * (b + 256 * (c + 256 * d)), rest)
u32 _ = err struct_error

abbrev cons_first : ℕ → Result (Bytes × Bytes) → Result (Bytes × Bytes)
cons_first a (ok (xs, rest)) = ok (a ∷ xs, rest)
cons_first a (err e) = err e

-- '%ds' % n
unfoldable pub raw : ℕ → Reader Bytes
raw zero xs = ok ([], xs)
raw (suc n) [] = err struct_error
raw (suc n) (a ∷ xs) = cons_first a (raw n xs)

module _ {A : Type 0} where
  abbrev first : Result (A × Bytes) → Result A
  first (ok (a, rest)) = ok a
  first (err e) = err e

  abbrev only : Result (A × Bytes) → Result A
  only (ok (a, [])) = ok a
  only (ok (a, b ∷ rest)) = err struct_error
  only (err e) = err e

  abbrev pub unpack_from : Reader A → Bytes → Result A
  unpack_from r xs = first (r xs)

  -- `unpack_from(fmt, xs, offset)`
  abbrev pub unpack_from_at : Reader A → Bytes → ℕ → Result A
  unpack_from_at r xs offset = first (r (drop offset xs))

  abbrev pub unpack : Reader A → Bytes → Result A
  unpack r xs = only (r xs)

-- The bytes of `pack('<H', n)` and `pack('<I', n)` for an `n` in range.
abbrev pub le16 : ℕ → Bytes
le16 n = n % 256 ∷ n / 256 ∷ []

abbrev pub le32 : ℕ → Bytes
le32 n = n % 256 ∷ n / 256 % 256 ∷ n / 65536 % 256 ∷ n / 16777216 ∷ []

-- struct.pack('B', n), ('H', n), ('I', n) and ('h', n) for n from 0 up
abbrev pub pack_u8 : ℕ → Result Bytes
pack_u8 n = if ltb n 256 then ok (n ∷ []) else err struct_error

abbrev pub pack_u16 : ℕ → Result Bytes
pack_u16 n = if ltb n 65536 then ok (le16 n) else err struct_error

abbrev pub pack_u32 : ℕ → Result Bytes
pack_u32 n = if ltb n 4294967296 then ok (le32 n) else err struct_error

abbrev pub pack_i16 : ℕ → Result Bytes
pack_i16 n = if ltb n 32768 then ok (le16 n) else err struct_error

-- bytearray.extend([n]) and append(n): ValueError unless n is a byte
abbrev pub to_byte : ℕ → Result Bytes
to_byte n = if ltb n 256 then ok (n ∷ []) else err value_error
