-- ===== src/Events/GattCl/Procedure.antt =====
-- The shape that the GATT client's discovery handlers have in common: a count, then the attributes.
use btptester_core.Prelude.{
  if◌then◌else◌, ◌==◌, Bool, false, ℕ, zero, suc, ◌≡◌, refl, List, [], ◌∷◌, Bytes, Text, arith,
  length, take, drop, ap, sym, ◌∙◌, Option, none, some, true,
}
use btptester_core.Result.{Result, ok, err}
use btptester_core.Struct.{raw, unpack_from}
use btptester_core.Struct.Formats.{b_6s_b_b}
use btptester_core.Decode.{AttrType, gatt_cl_dec_disc_rsp, DiscAttr, dec_disc_rsp}
use btptester_core.Uuid.{btp2uuid}
use btptester_core.Decode.Count.{length-dec_disc_rsp}
use btptester_core.GattCl.{GattCl}
use btptester_core.Events.GattCl.{false, Bool, the_gatt_cl, put_gatt_cl}
use btptester_core.Stack.{Stack}
use btptester_core.Exec.{pure, lift, ◌>>=◌, ◌>>◌}
use btptester_core.Events.Args.{EvArgs, Handler, nothing}

-- The count that the handlers read from the first nine bytes is the first byte that the decoder
-- gets.
count_byte :
    (dat : Bytes) {t : ℕ} {a : Bytes} {status cnt : ℕ}
    → unpack_from b_6s_b_b (take 9 dat) ≡ ok (t, a, status, cnt)
    → (rest : Bytes) × (drop 8 dat ≡ cnt ∷ rest)
unfolding b_6s_b_b raw
count_byte (b0 ∷ b1 ∷ b2 ∷ b3 ∷ b4 ∷ b5 ∷ b6 ∷ b7 ∷ b8 ∷ rest) e = (rest, ground (arith, e))
count_byte [] e = cc
count_byte (b0 ∷ []) e = cc
count_byte (b0 ∷ b1 ∷ []) e = cc
count_byte (b0 ∷ b1 ∷ b2 ∷ []) e = cc
count_byte (b0 ∷ b1 ∷ b2 ∷ b3 ∷ []) e = cc
count_byte (b0 ∷ b1 ∷ b2 ∷ b3 ∷ b4 ∷ []) e = cc
count_byte (b0 ∷ b1 ∷ b2 ∷ b3 ∷ b4 ∷ b5 ∷ []) e = cc
count_byte (b0 ∷ b1 ∷ b2 ∷ b3 ∷ b4 ∷ b5 ∷ b6 ∷ []) e = cc
count_byte (b0 ∷ b1 ∷ b2 ∷ b3 ∷ b4 ∷ b5 ∷ b6 ∷ b7 ∷ []) e = cc

decoded_length :
    (t : AttrType) (dat : Bytes) {at : ℕ} {a : Bytes} {status cnt : ℕ} {l : List (DiscAttr Text t)}
    → unpack_from b_6s_b_b (take 9 dat) ≡ ok (at, a, status, cnt)
    → gatt_cl_dec_disc_rsp t (drop 8 dat) ≡ ok l
    → length l ≡ cnt
unfolding gatt_cl_dec_disc_rsp
decoded_length t dat e d =
    let (rest, q) = count_byte dat e in
    length-dec_disc_rsp btp2uuid t _ rest (sym (ap (dec_disc_rsp btp2uuid t) q) ∙ d)

suc_not_zero : (n : ℕ) → (suc n == 0) ≡ false
suc_not_zero n = ground arith

-- Where a run of a handler has returned, the test holds of `stack.gatt_cl`.
abbrev pub raises_or : (GattCl → Bool) → Result EvArgs × Stack → Bool
raises_or done (err e, s) = true
raises_or done (ok ret, s) = elim s.gatt_cl [ none ↦ false | some c ↦ done c ]

-- The six handlers have one shape: `reset` sets the count, `fill` runs the loops.
module _ (t : AttrType) (reset : ℕ → GattCl → GattCl)
    (fill : List (DiscAttr Text t) → GattCl → GattCl) (done : GattCl → Bool) where
  abbrev pub decode_step : ℕ → GattCl → Result (List (DiscAttr Text t)) → Handler
  decode_step n c r = do l ← lift r; put_gatt_cl (fill l (reset n c)); pure nothing

  abbrev pub disc_ev : Bytes → Handler
  disc_ev dat = do
    c ← the_gatt_cl
    (addr_type, addr, status, cnt) ← lift (unpack_from b_6s_b_b (take 9 dat))
    put_gatt_cl (reset cnt c)
    if cnt == 0 then pure nothing else decode_step cnt c (gatt_cl_dec_disc_rsp t (drop 8 dat))

  module _ (z : (c : GattCl) → done (reset 0 c) ≡ true)
      (f : (n : ℕ) (l : List (DiscAttr Text t)) (c : GattCl)
        → length l ≡ n
        → done (fill l (reset n c)) ≡ true) where
    decode_step-done :
        (n : ℕ) (c : GattCl) (r : Result (List (DiscAttr Text t))) (s : Stack)
        → ((l : List (DiscAttr Text t)) → r ≡ ok l → length l ≡ n)
        → raises_or done (decode_step n c r s) ≡ true
    decode_step-done n c (ok l) s h = f n l c (h l refl)
    decode_step-done n c (err e) s h = refl

    count_step-done :
        (n : ℕ) (c : GattCl) (r : Result (List (DiscAttr Text t))) (s : Stack)
        → ((l : List (DiscAttr Text t)) → r ≡ ok l → length l ≡ n)
        → raises_or done (
            (if n == 0 then pure nothing else decode_step n c r)
              (record s { gatt_cl = some (reset n c) }))
          ≡ true
    count_step-done zero c r s h = z c
    count_step-done (suc n) c r s h =
        rw (suc_not_zero n)
          (decode_step-done (suc n) c r (record s { gatt_cl = some (reset (suc n) c) }) h)

    header_step-done :
        (u : Result (ℕ × Bytes × ℕ × ℕ)) (c : GattCl) (r : Result (List (DiscAttr Text t)))
        (s : Stack)
        → ((at : ℕ) (a : Bytes) (status cnt : ℕ) (l : List (DiscAttr Text t))
            → u ≡ ok (at, a, status, cnt)
            → r ≡ ok l
            → length l ≡ cnt)
        → raises_or done (
            (do
              (addr_type, addr, status, cnt) ← lift u
              put_gatt_cl (reset cnt c)
              if cnt == 0 then pure nothing else decode_step cnt c r)
              s)
          ≡ true
    header_step-done (err e) c r s h = refl
    header_step-done (ok (at, a, status, cnt)) c r s h =
        count_step-done cnt c r s (λ l. h at a status cnt l refl)

    pub disc_ev-done :
        (dat : Bytes) (s : Stack) (o : Option GattCl)
        → s.gatt_cl ≡ o
        → raises_or done (disc_ev dat s) ≡ true
    disc_ev-done dat s none h = rw h refl
    disc_ev-done dat s (some c) h = rw h (
        header_step-done (unpack_from b_6s_b_b (take 9 dat)) c (gatt_cl_dec_disc_rsp t (drop 8 dat))
          (record s { gatt_cl = some c }) (λ at a status cnt l. decoded_length t dat))
