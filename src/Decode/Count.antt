-- ===== src/Decode/Count.antt =====
-- How many attributes the decoders of discovery responses return.
use btptester_core.Prelude.{ℕ, zero, suc, ◌+◌, ◌≡◌, List, ◌∷◌, Bytes, arith, length}
use btptester_core.Result.{Result, ok, >>=-eq-ok}
use btptester_core.Decode.{AttrType, DiscAttr, dec_attr, dec_attrs, dec_disc_rsp, drop}

module _ {U : Type 0} (uuid_of : ℕ → Bytes → Result U) where
  length-dec_attrs :
      (t : AttrType) (n offset : ℕ) (attrs : Bytes) {l : List (DiscAttr U t)}
      → dec_attrs uuid_of t n offset attrs ≡ ok l
      → length l ≡ n
  unfolding dec_attrs
  length-dec_attrs t zero offset attrs e = ground arith
  length-dec_attrs t (suc n) offset attrs e =
      let (m, h, k) = >>=-eq-ok (dec_attr uuid_of t (drop offset attrs)) _ e in
      let (l, q, r) = >>=-eq-ok (dec_attrs uuid_of t n (offset + m.1) attrs) _ k in
      ground (arith, length-dec_attrs t n (offset + m.1) attrs q, r)

  -- A decoder that succeeds returns as many attributes as the first byte says.
  pub length-dec_disc_rsp :
      (t : AttrType) (n : ℕ) (attrs : Bytes) {l : List (DiscAttr U t)}
      → dec_disc_rsp uuid_of t (n ∷ attrs) ≡ ok l
      → length l ≡ n
  unfolding dec_disc_rsp
  length-dec_disc_rsp t n attrs e = length-dec_attrs t n 0 attrs e
