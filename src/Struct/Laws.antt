-- ===== src/Struct/Laws.antt =====
-- Reading back what was packed, and how much a reader takes.
use btptester_core.Prelude.{
  ℕ, zero, suc, ◌≤◌, ◌<◌, ◌≡◌, refl, [], ◌∷◌, ◌++◌, Bytes, arith, length, take, drop,
}
use btptester_core.Result.{ok, err, struct_error}
use btptester_core.Struct.{raw, u16, u32, le16, le32}

pub u16-le16 : (n : ℕ) (rest : Bytes) → u16 (le16 n ++ rest) ≡ ok (n, rest)
u16-le16 n rest = ground arith

pub u32-le32 : (n : ℕ) (rest : Bytes) → u32 (le32 n ++ rest) ≡ ok (n, rest)
u32-le32 n rest = ground arith

pub raw-length-append : (xs rest : Bytes) → raw (length xs) (xs ++ rest) ≡ ok (xs, rest)
unfolding raw
raw-length-append [] rest = refl
raw-length-append (x ∷ xs) rest = rw (raw-length-append xs rest)

pub raw_all : (xs : Bytes) → raw (length xs) xs ≡ ok (xs, [])
unfolding raw
raw_all [] = refl
raw_all (x ∷ xs) = rw (raw_all xs)

-- A read of n bytes succeeds exactly if there are n, and splits them off.
pub raw_enough : (n : ℕ) (xs : Bytes) → n ≤ length xs → raw n xs ≡ ok (take n xs, drop n xs)
unfolding raw
raw_enough zero xs h = refl
raw_enough (suc n) [] h = absurd (omega arith)
raw_enough (suc n) (x ∷ xs) h = rw (raw_enough n xs (omega arith))

pub raw_short : (n : ℕ) (xs : Bytes) → length xs < n → raw n xs ≡ err struct_error
unfolding raw
raw_short zero xs h = absurd (omega arith)
raw_short (suc n) [] h = refl
raw_short (suc n) (x ∷ xs) h = rw (raw_short n xs (omega arith))
