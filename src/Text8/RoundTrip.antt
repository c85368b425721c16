-- ===== src/Text8/RoundTrip.antt =====
-- Text that is encoded by `str.encode` and decoded again.
use btptester_core.Prelude.{
  ℕ, ◌≡◌, ◌<◌, ◌≤◌, refl, ◌∙◌, ap, sym, append-nil, append_assoc, ◌+◌, ◌*◌, Option, none, some, [],
  ◌∷◌, ◌++◌, All, Bytes, Text, arith, ◌/◌, ◌%◌, ◌⊎◌, inl, inr,
}
use btptester_core.Result
use btptester_core.Result.{Result, ok, err}
use btptester_core.Worker.{utf8, encode}
use btptester_core.Text8.{
  Decoder, decode, decode_from, step, first_byte, start, inside, emit, next_byte, continued,
}

decode_from-step :
    (d e : Decoder) (b : ℕ) (o : Option ℕ) (bs : Bytes)
    → step d b ≡ (e, o)
    → decode_from d (b ∷ bs) ≡ emit o (decode_from e bs)
unfolding decode_from
decode_from-step d e b o bs h = rw h refl

step-inside :
    (n acc lo hi x : ℕ)
    → lo ≤ 0x80 + x
    → 0x80 + x ≤ hi
    → step (inside n acc lo hi) (0x80 + x) ≡ next_byte n (acc * 64 + x)
unfolding step
step-inside n acc lo hi x l h = ground arith

step-ascii : (c : ℕ) → c < 0x80 → step start c ≡ (start, some c)
unfolding step first_byte
step-ascii c h = ground arith

step-two : (a : ℕ) → 2 ≤ a → a < 32 → step start (0xc0 + a) ≡ (continued 0 a, none)
unfolding step first_byte
step-two a l h = ground arith

step-three : (a : ℕ) → 0 < a → a < 13 → step start (0xe0 + a) ≡ (continued 1 a, none)
unfolding step first_byte
step-three a l h = ground arith

step-high : (a : ℕ) → 13 < a → a < 16 → step start (0xe0 + a) ≡ (continued 1 a, none)
unfolding step first_byte
step-high a l h = ground arith

step-four : (a : ℕ) → 0 < a → a < 4 → step start (0xf0 + a) ≡ (continued 2 a, none)
unfolding step first_byte
step-four a l h = ground arith

-- the last byte of a character, the last two and the last three
decode_from-last :
    (acc lo hi x : ℕ) (rest : Bytes)
    → lo ≤ 0x80 + x
    → 0x80 + x ≤ hi
    → decode_from (inside 0 acc lo hi) ((0x80 + x) ∷ rest)
      ≡ emit (some (acc * 64 + x)) (decode_from start rest)
decode_from-last acc lo hi x rest l h =
    decode_from-step (inside 0 acc lo hi) start (0x80 + x) (some (acc * 64 + x)) rest
      (step-inside 0 acc lo hi x l h)

decode_from-last_two :
    (acc lo hi x y : ℕ) (rest : Bytes)
    → lo ≤ 0x80 + x
    → 0x80 + x ≤ hi
    → y < 64
    → decode_from (inside 1 acc lo hi) ((0x80 + x) ∷ (0x80 + y) ∷ rest)
      ≡ emit (some ((acc * 64 + x) * 64 + y)) (decode_from start rest)
decode_from-last_two acc lo hi x y rest l h k =
    decode_from-step (inside 1 acc lo hi) (continued 0 (acc * 64 + x)) (0x80 + x) none
      ((0x80 + y) ∷ rest) (step-inside 1 acc lo hi x l h)
    ∙ decode_from-last (acc * 64 + x) 0x80 0xbf y rest (omega arith) (omega arith)

decode_from-last_three :
    (acc lo hi x y z : ℕ) (rest : Bytes)
    → lo ≤ 0x80 + x
    → 0x80 + x ≤ hi
    → y < 64
    → z < 64
    → decode_from (inside 2 acc lo hi) ((0x80 + x) ∷ (0x80 + y) ∷ (0x80 + z) ∷ rest)
      ≡ emit (some (((acc * 64 + x) * 64 + y) * 64 + z)) (decode_from start rest)
decode_from-last_three acc lo hi x y z rest l h k m =
    decode_from-step (inside 2 acc lo hi) (continued 1 (acc * 64 + x)) (0x80 + x) none
      ((0x80 + y) ∷ (0x80 + z) ∷ rest) (step-inside 2 acc lo hi x l h)
    ∙ decode_from-last_two (acc * 64 + x) 0x80 0xbf y z rest (omega arith) (omega arith) m

char-ascii :
    (c : ℕ) (rest : Bytes)
    → c < 0x80
    → decode_from start (c ∷ rest) ≡ emit (some c) (decode_from start rest)
char-ascii c rest h = decode_from-step start start c (some c) rest (step-ascii c h)

char-two :
    (c : ℕ) (rest : Bytes)
    → 0x80 ≤ c
    → c < 0x800
    → decode_from start ((0xc0 + c / 64) ∷ (0x80 + c % 64) ∷ rest)
      ≡ emit (some c) (decode_from start rest)
char-two c rest l h =
    decode_from-step start (continued 0 (c / 64)) (0xc0 + c / 64) none ((0x80 + c % 64) ∷ rest)
      (step-two (c / 64) (omega arith) (omega arith))
    ∙ decode_from-last (c / 64) 0x80 0xbf (c % 64) rest (omega arith) (omega arith)
    ∙ ap (λ v. emit (some v) (decode_from start rest)) (omega arith)

three :
    (c a lo hi : ℕ) (rest : Bytes)
    → a ≡ c / 4096
    → step start (0xe0 + a) ≡ (inside 1 a lo hi, none)
    → lo ≤ 0x80 + c / 64 % 64
    → 0x80 + c / 64 % 64 ≤ hi
    → decode_from start ((0xe0 + a) ∷ (0x80 + c / 64 % 64) ∷ (0x80 + c % 64) ∷ rest)
      ≡ emit (some c) (decode_from start rest)
three c a lo hi rest e s l h =
    decode_from-step start (inside 1 a lo hi) (0xe0 + a) none
      ((0x80 + c / 64 % 64) ∷ (0x80 + c % 64) ∷ rest) s
    ∙ decode_from-last_two a lo hi (c / 64 % 64) (c % 64) rest l h (omega arith)
    ∙ ap (λ v. emit (some v) (decode_from start rest)) (omega arith)

four :
    (c a lo hi : ℕ) (rest : Bytes)
    → a ≡ c / 262144
    → step start (0xf0 + a) ≡ (inside 2 a lo hi, none)
    → lo ≤ 0x80 + c / 4096 % 64
    → 0x80 + c / 4096 % 64 ≤ hi
    → decode_from start
        ((0xf0 + a) ∷ (0x80 + c / 4096 % 64) ∷ (0x80 + c / 64 % 64) ∷ (0x80 + c % 64) ∷ rest)
      ≡ emit (some c) (decode_from start rest)
four c a lo hi rest e s l h =
    decode_from-step start (inside 2 a lo hi) (0xf0 + a) none
      ((0x80 + c / 4096 % 64) ∷ (0x80 + c / 64 % 64) ∷ (0x80 + c % 64) ∷ rest) s
    ∙ decode_from-last_three a lo hi (c / 4096 % 64) (c / 64 % 64) (c % 64) rest l h (omega arith)
        (omega arith)
    ∙ ap (λ v. emit (some v) (decode_from start rest)) (omega arith)

lead_cases :
    (a : ℕ) → a < 16 → (a ≡ 0) ⊎ ((a ≡ 13) ⊎ (((0 < a) × (a < 13)) ⊎ ((13 < a) × (a < 16))))
lead_cases a h = ground arith

char-three :
    (c : ℕ) (rest : Bytes)
    → 0x800 ≤ c
    → c < 0x10000
    → (c < 0xd800) ⊎ (0xdfff < c)
    → decode_from start ((0xe0 + c / 4096) ∷ (0x80 + c / 64 % 64) ∷ (0x80 + c % 64) ∷ rest)
      ≡ emit (some c) (decode_from start rest)
unfolding step
char-three c rest l h s = elim (lead_cases (c / 4096) (omega arith)) [
  | inl z ↦
      three c (c / 4096) 0xa0 0xbf rest refl
        (ap (λ a. step start (0xe0 + a)) z ∙ ap (λ a. (inside 1 a 0xa0 0xbf, none)) (sym z))
        (omega arith) (omega arith)
  | inr (inl d) ↦
      three c (c / 4096) 0x80 0x9f rest refl
        (ap (λ a. step start (0xe0 + a)) d ∙ ap (λ a. (inside 1 a 0x80 0x9f, none)) (sym d))
        (omega arith) (elim s [ inl x ↦ omega arith | inr y ↦ omega arith ])
  | inr (inr (inl (p, q))) ↦
      three c (c / 4096) 0x80 0xbf rest refl (step-three (c / 4096) p q) (omega arith) (omega arith)
  | inr (inr (inr (p, q))) ↦
      three c (c / 4096) 0x80 0xbf rest refl (step-high (c / 4096) p q) (omega arith) (omega arith)
]

four_cases : (a : ℕ) → a < 5 → (a ≡ 0) ⊎ ((a ≡ 4) ⊎ ((0 < a) × (a < 4)))
four_cases a h = ground arith

char-four :
    (c : ℕ) (rest : Bytes)
    → 0x10000 ≤ c
    → c < 0x110000
    → decode_from start (
        (0xf0 + c / 262144)
        ∷ (0x80 + c / 4096 % 64)
        ∷ (0x80 + c / 64 % 64)
        ∷ (0x80 + c % 64)
        ∷ rest)
      ≡ emit (some c) (decode_from start rest)
unfolding step
char-four c rest l h = elim (four_cases (c / 262144) (omega arith)) [
  | inl z ↦
      four c (c / 262144) 0x90 0xbf rest refl
        (ap (λ a. step start (0xf0 + a)) z ∙ ap (λ a. (inside 2 a 0x90 0xbf, none)) (sym z))
        (omega arith) (omega arith)
  | inr (inl d) ↦
      four c (c / 262144) 0x80 0x8f rest refl
        (ap (λ a. step start (0xf0 + a)) d ∙ ap (λ a. (inside 2 a 0x80 0x8f, none)) (sym d))
        (omega arith) (omega arith)
  | inr (inr (p, q)) ↦
      four c (c / 262144) 0x80 0xbf rest refl (step-four (c / 262144) p q) (omega arith)
        (omega arith)
]

-- One character, whatever follows it.
decode_from-utf8 :
    (c : ℕ) (b rest : Bytes)
    → c < 0x110000
    → utf8 c ≡ ok b
    → decode_from start (b ++ rest) ≡ emit (some c) (decode_from start rest)
unfolding utf8
decode_from-utf8 c b rest h e =
    ground (arith, char-ascii c rest, char-two c rest, char-three c rest, char-four c rest, e)

-- the characters in front of what the rest decodes to
abbrev pub onto : Text → Result Text → Result Text
onto t (ok s) = ok (t ++ s)
onto t (err e) = err e

emit-onto : (c : ℕ) (t : Text) (r : Result Text) → emit (some c) (onto t r) ≡ onto (c ∷ t) r
emit-onto c t (ok s) = refl
emit-onto c t (err e) = refl

onto_none : (r : Result Text) → r ≡ onto [] r
onto_none (ok s) = refl
onto_none (err e) = refl

-- The same with bytes behind the encoding.
pub decode-encode-append :
    (t : Text) (b rest : Bytes)
    → All (λ c. c < 0x110000) t
    → encode t ≡ ok b
    → decode (b ++ rest) ≡ onto t (decode rest)
unfolding encode decode decode_from
decode-encode-append [] b rest a e = grind (arith, onto_none (decode_from start rest), e)
decode-encode-append (c ∷ t) b rest (h, a) e =
    let (x, ex, e) = Result.>>=-eq-ok (utf8 c) (λ x. Result.◌>>=◌ (encode t) λ y. ok (x ++ y)) e in
    let (y, ey, e) = Result.>>=-eq-ok (encode t) (λ y. ok (x ++ y)) e in
    grind (
      arith,
      decode_from-utf8 c x (y ++ rest) h ex,
      decode-encode-append t y rest a ey,
      emit-onto c t (decode_from start rest),
      append_assoc x y rest,
      e,
    )

-- A text of code points that has an encoding is what its encoding decodes to.
pub decode-encode :
    (t : Text) (b : Bytes) → All (λ c. c < 0x110000) t → encode t ≡ ok b → decode b ≡ ok t
unfolding decode decode_from
decode-encode t b a e =
    ap decode (sym (append-nil b)) ∙ decode-encode-append t b [] a e ∙ ap ok (append-nil t)
