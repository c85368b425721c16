-- ===== src/Events/GattCl/Discovered.antt =====
-- What a test case sees of a well-formed response to the discovery of primary services.
use btptester_core.Prelude.{
  ℕ, suc, ◌≡◌, refl, List, [], ◌∷◌, ◌++◌, Bytes, Text, All, arith, length, map, some, ◌∙◌, ap, sym,
  append-nil,
}
use btptester_core.Result.{ok}
use btptester_core.Struct.{raw}
use btptester_core.Struct.Formats.{b_6s_b_b}
use btptester_core.Stack.{Stack}
use btptester_core.Events.Args.{nothing}
use btptester_core.Events.Gap.Found.{six}
use btptester_core.Decode.{AttrType, SvcAttr, gatt_cl_dec_disc_rsp}
use btptester_core.Decode.RoundTrip.{
  enc_disc_rsp, IsUuid, uuid_bytes, uuid_text, with_uuid, enc_attrs, gatt_cl_dec_disc_rsp-enc,
}
use btptester_core.GattCl.{GattCl}
use btptester_core.Events.GattCl.{gatt_cl_disc_all_prim_rsp_ev_, add_all_prim}
use btptester_core.Events.GattCl.Loops.{prim_entry, prim_svcs-add_all_prim}

abbrev pub text_svc : SvcAttr Bytes → SvcAttr Text
text_svc a = with_uuid AttrType.service a (uuid_text (uuid_bytes AttrType.service a))

-- The address, the status and the services, as the device lays them out.
abbrev pub prim_rsp : ℕ → Bytes → ℕ → List (SvcAttr Bytes) → Bytes
prim_rsp t addr status svcs = t ∷ addr ++ status ∷ enc_disc_rsp AttrType.service svcs

abbrev filled : Stack → GattCl → ℕ → List (SvcAttr Text) → Stack
filled s c n svcs = record s {
  gatt_cl = some (add_all_prim svcs (record c { prim_svcs = []; prim_svcs_cnt = some n }));
}

all_prim_run :
    (s : Stack) (c : GattCl) (t a b c' d e f status n : ℕ) (attrs : Bytes)
    (svcs : List (SvcAttr Text))
    → s.gatt_cl ≡ some c
    → gatt_cl_dec_disc_rsp AttrType.service (suc n ∷ attrs) ≡ ok svcs
    → gatt_cl_disc_all_prim_rsp_ev_ (t ∷ six a b c' d e f ++ status ∷ suc n ∷ attrs) s
      ≡ (ok nothing, filled s c (suc n) svcs)
unfolding gatt_cl_disc_all_prim_rsp_ev_ b_6s_b_b raw
all_prim_run s c t a b c' d e f status n attrs svcs h k = rw (h, k) (ground arith)

map-map :
    {A B C : Type 0} (f : A → B) (g : B → C) (l : List A) → map g (map f l) ≡ map (λ x. g (f x)) l
map-map f g [] = refl
map-map f g (x ∷ l) = ap (λ r. g (f x) ∷ r) (map-map f g l)

decoded :
    (svcs : List (SvcAttr Bytes))
    → All (λ a. IsUuid (uuid_bytes AttrType.service a)) svcs
    → gatt_cl_dec_disc_rsp AttrType.service (enc_disc_rsp AttrType.service svcs)
      ≡ ok (map text_svc svcs)
decoded svcs h =
    sym
      (ap (gatt_cl_dec_disc_rsp AttrType.service) (append-nil (enc_disc_rsp AttrType.service svcs)))
    ∙ gatt_cl_dec_disc_rsp-enc AttrType.service svcs [] h

-- A response that holds one service or more, each with a UUID of 2 or 16 bytes, is accepted, and
-- afterwards `prim_svcs` holds exactly those services in their order, the handles as four digits
-- and the UUID as text; a UUID that comes twice stands there twice.
pub prim_svcs_discovered :
    (s : Stack) (c : GattCl) (t a b c' d e f status : ℕ) (svc : SvcAttr Bytes)
    (svcs : List (SvcAttr Bytes))
    → s.gatt_cl ≡ some c
    → All (λ x. IsUuid (uuid_bytes AttrType.service x)) (svc ∷ svcs)
    → (after : GattCl) × (gatt_cl_disc_all_prim_rsp_ev_
          (prim_rsp t (six a b c' d e f) status (svc ∷ svcs))
          s
        ≡ (ok nothing, record s { gatt_cl = some after }))
      × (after.prim_svcs ≡ map (λ x. prim_entry (text_svc x)) (svc ∷ svcs))
prim_svcs_discovered s c t a b c' d e f status svc svcs h u =
    let texts = map text_svc (svc ∷ svcs) in
    let start = record c { prim_svcs = []; prim_svcs_cnt = some (suc (length svcs)) } in
    (
      add_all_prim texts start,
      all_prim_run s c t a b c' d e f status (length svcs) (enc_attrs AttrType.service (svc ∷ svcs))
          texts h (decoded (svc ∷ svcs) u),
      prim_svcs-add_all_prim texts start ∙ map-map text_svc prim_entry (svc ∷ svcs),
    )
