-- ===== src/Uuid/RoundTrip.antt =====
-- UUIDs between bytes and text.
use btptester_core.Prelude.{
  ℕ, zero, suc, ◌+◌, ◌*◌, ◌≡◌, ◌⊎◌, inl, inr, refl, [], ◌∷◌, ◌++◌, reverse, reverse-reverse, Bytes,
  IsBytes, All-reverse, take, drop, length, length-reverse, arith, ◌<◌,
}
use btptester_core.Result.{ok, ◌>>=◌}
use btptester_core.Hex.{hexlify, upper, remove_char, format_x}
use btptester_core.Hex.Laws.{
  unhexlify-upper-hexlify, remove_dash_group, hexlify-take-drop, hexlify-Lacks, remove_char_absent,
  upper-hexlify-Lacks_dash, zfill-format_x, zfill-upper,
}
use btptester_core.Uuid.{btp2uuid, uuid2btp, urn_text}

All-take : (n : ℕ) (bs : Bytes) → IsBytes bs → IsBytes (take n bs)
All-take zero bs h = tt
All-take (suc n) [] h = tt
All-take (suc n) (b ∷ bs) h = (h.0, All-take n bs h.1)

All-drop : (n : ℕ) (bs : Bytes) → IsBytes bs → IsBytes (drop n bs)
All-drop zero bs h = h
All-drop (suc n) [] h = tt
All-drop (suc n) (b ∷ bs) h = All-drop n bs h.1

-- One more group of `n` bytes behind the first `k`.
hexlify_group :
    (k n : ℕ) (bs : Bytes)
    → hexlify (take n (drop k bs)) ++ hexlify (drop n (drop k bs)) ≡ hexlify (drop k bs)
hexlify_group k n bs = hexlify-take-drop n (drop k bs)

drop_two : (k : ℕ) (bs : Bytes) → drop 2 (drop k bs) ≡ drop (suc (suc k)) bs
drop_two zero bs = refl
drop_two (suc k) [] = refl
drop_two (suc k) (b ∷ bs) = drop_two k bs

-- The digits of the five groups are the digits of the 16 bytes.
hexlify_groups :
    (b : Bytes)
    → hexlify (take 4 b)
        ++ (hexlify (take 2 (drop 4 b))
            ++ (hexlify (take 2 (drop 6 b))
                ++ (hexlify (take 2 (drop 8 b)) ++ hexlify (drop 10 b))))
      ≡ hexlify b
hexlify_groups b = rw (
  ← drop_two 8 b,
  hexlify_group 8 2 b,
  ← drop_two 6 b,
  hexlify_group 6 2 b,
  ← drop_two 4 b,
  hexlify_group 4 2 b,
  hexlify-take-drop 4 b,
)

remove_dash-urn_text : (b : Bytes) → IsBytes b → remove_char b'-' (urn_text b) ≡ hexlify b
unfolding urn_text
remove_dash-urn_text b h =
    rw
      (
        remove_dash_group (take 4 b) _ (All-take 4 b h),
        remove_dash_group (take 2 (drop 4 b)) _ (All-take 2 _ (All-drop 4 b h)),
        remove_dash_group (take 2 (drop 6 b)) _ (All-take 2 _ (All-drop 6 b h)),
        remove_dash_group (take 2 (drop 8 b)) _ (All-take 2 _ (All-drop 8 b h)),
        remove_char_absent b'-' _ (hexlify-Lacks b'-' (drop 10 b) (omega arith) (All-drop 10 b h)),
      )
      (hexlify_groups b)

uuid16_hexlify :
    (a b : ℕ) → a < 256 → b < 256 → btp2uuid 2 (a ∷ b ∷ []) ≡ ok (upper (hexlify (b ∷ a ∷ [])))
unfolding btp2uuid
uuid16_hexlify a b ha hb =
    rw (zfill-upper 4 (format_x (a + 256 * b)), zfill-format_x (a + 256 * b) (omega arith))
      (unfold hexlify in ground arith)

uuid128_hexlify :
    (uu : Bytes)
    → length uu ≡ 16
    → IsBytes uu
    → btp2uuid (length uu) uu ≡ ok (upper (hexlify (reverse uu)))
unfolding btp2uuid
uuid128_hexlify uu n h =
    rw (length-reverse uu, n, remove_dash-urn_text (reverse uu) (All-reverse _ uu h))

-- A UUID of 2 or of 16 bytes prints as its bytes in big-endian order, two upper-case digits each.
pub btp2uuid-hexlify :
    (uu : Bytes)
    → (length uu ≡ 2) ⊎ (length uu ≡ 16)
    → IsBytes uu
    → btp2uuid (length uu) uu ≡ ok (upper (hexlify (reverse uu)))
btp2uuid-hexlify uu (inr n) h = uuid128_hexlify uu n h
btp2uuid-hexlify [] (inl n) h = absurd (omega arith)
btp2uuid-hexlify (a ∷ []) (inl n) h = absurd (omega arith)
btp2uuid-hexlify (a ∷ b ∷ []) (inl n) h = uuid16_hexlify a b h.0 h.1.0
btp2uuid-hexlify (a ∷ b ∷ c ∷ r) (inl n) h = absurd (omega arith)

-- The text that `btp2uuid` makes of 2 or 16 UUID bytes is accepted by the commands that take a
-- UUID, and they send the same bytes.
pub uuid2btp-btp2uuid :
    (uu : Bytes)
    → (length uu ≡ 2) ⊎ (length uu ≡ 16)
    → IsBytes uu
    → (btp2uuid (length uu) uu >>= uuid2btp) ≡ ok uu
unfolding uuid2btp
uuid2btp-btp2uuid uu n h = rw (
  btp2uuid-hexlify uu n h,
  remove_char_absent b'-' _ (upper-hexlify-Lacks_dash (reverse uu) (All-reverse _ uu h)),
  unhexlify-upper-hexlify (reverse uu) (All-reverse _ uu h),
  reverse-reverse uu,
)
