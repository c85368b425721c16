-- ===== src/Struct/Formats.antt =====
-- The struct formats of btp.py and parser.py that several functions share, as readers.
use btptester_core.Prelude.{ℕ, Bytes}
use btptester_core.Struct.{Reader, ◌>>=◌, pure, u8, u16, u32, raw}

-- '<B6s': address type and address
unfoldable pub b_6s : Reader (ℕ × Bytes)
unfolding raw
b_6s = do t ← u8; a ← raw 6; pure (t, a)

-- '<B6sB'
unfoldable pub b_6s_b : Reader (ℕ × Bytes × ℕ)
unfolding raw
b_6s_b = do t ← u8; a ← raw 6; x ← u8; pure (t, a, x)

-- '<B6sBB'
unfoldable pub b_6s_b_b : Reader (ℕ × Bytes × ℕ × ℕ)
unfolding raw
b_6s_b_b = do t ← u8; a ← raw 6; x ← u8; y ← u8; pure (t, a, x, y)

-- '<B6sBH'
unfoldable pub b_6s_b_h : Reader (ℕ × Bytes × ℕ × ℕ)
unfolding raw
b_6s_b_h = do t ← u8; a ← raw 6; x ← u8; y ← u16; pure (t, a, x, y)

-- '<B6sBHH'
unfoldable pub b_6s_b_h_h : Reader (ℕ × Bytes × ℕ × ℕ × ℕ)
unfolding raw
b_6s_b_h_h = do t ← u8; a ← raw 6; x ← u8; y ← u16; z ← u16; pure (t, a, x, y, z)

-- '<B6sBBH'
unfoldable pub b_6s_b_b_h : Reader (ℕ × Bytes × ℕ × ℕ × ℕ)
unfolding raw
b_6s_b_b_h = do t ← u8; a ← raw 6; x ← u8; y ← u8; z ← u16; pure (t, a, x, y, z)

-- '<B6sHHH'
unfoldable pub b_6s_h_h_h : Reader (ℕ × Bytes × ℕ × ℕ × ℕ)
unfolding raw
b_6s_h_h_h = do t ← u8; a ← raw 6; x ← u16; y ← u16; z ← u16; pure (t, a, x, y, z)

-- '<B6sI'
unfoldable pub b_6s_i : Reader (ℕ × Bytes × ℕ)
unfolding raw
b_6s_i = do t ← u8; a ← raw 6; x ← u32; pure (t, a, x)

-- '<B6sB6s'
unfoldable pub b_6s_b_6s : Reader (ℕ × Bytes × ℕ × Bytes)
unfolding raw
b_6s_b_6s = do t ← u8; a ← raw 6; u ← u8; b ← raw 6; pure (t, a, u, b)
