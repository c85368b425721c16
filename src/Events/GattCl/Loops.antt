-- ===== src/Events/GattCl/Loops.antt =====
-- What the loops of the GATT client's discovery handlers append, and that they keep the counts.
use btptester_core.Prelude.{
  ℕ, ◌≡◌, refl, List, [], ◌∷◌, Text, ◌++◌, map, append-nil, append_assoc, sym, ◌∙◌,
}
use btptester_core.Decode.{SvcAttr, ChrcAttr, DescAttr, InclAttr}
use btptester_core.GattCl.{GattCl}
use btptester_core.Events.GattCl.{
  add_all_prim, add_prim_uuid, add_incl, add_chrcs, store_chrcs, add_dscs, upper, Handle, hex,
  uuid_in, hdl_hex, false, num, int_hex,
}

abbrev pub prim_entry : SvcAttr Text → Handle × Handle × Text
prim_entry (s, e, u) = (hex (hdl_hex s), hex (hdl_hex e), upper u)

uuid_in_lem : (uuid : Text) (l : List (Handle × Handle × Text)) → uuid_in uuid l ≡ false
uuid_in_lem uuid [] = refl
uuid_in_lem uuid (s ∷ l) = uuid_in_lem uuid l

-- The loop adds an entry for each service, also where the UUID is there already.
pub prim_svcs-add_all_prim :
    (svcs : List (SvcAttr Text)) (c : GattCl)
    → (add_all_prim svcs c).prim_svcs ≡ c.prim_svcs ++ map prim_entry svcs
unfolding add_all_prim
prim_svcs-add_all_prim [] c = sym (append-nil c.prim_svcs)
prim_svcs-add_all_prim ((s, e, u) ∷ svcs) c =
    rw (uuid_in_lem (upper u) c.prim_svcs, add_all_prim)
      (prim_svcs-add_all_prim svcs _
        ∙ append_assoc c.prim_svcs (prim_entry (s, e, u) ∷ []) (map prim_entry svcs))

pub prim_svcs_cnt-add_all_prim :
    (svcs : List (SvcAttr Text)) (c : GattCl)
    → (add_all_prim svcs c).prim_svcs_cnt ≡ c.prim_svcs_cnt
unfolding add_all_prim
prim_svcs_cnt-add_all_prim [] c = refl
prim_svcs_cnt-add_all_prim ((s, e, u) ∷ svcs) c =
    rw (uuid_in_lem (upper u) c.prim_svcs, add_all_prim) (prim_svcs_cnt-add_all_prim svcs _)

abbrev pub add_prim_uuid_entry : SvcAttr Text → Handle × Handle × Text
add_prim_uuid_entry (s, e, u) = (num (int_hex (hdl_hex s)), hex (hdl_hex e), u)

pub prim_svcs-add_prim_uuid :
    (l : List (SvcAttr Text)) (c : GattCl)
    → (add_prim_uuid l c).prim_svcs ≡ c.prim_svcs ++ map add_prim_uuid_entry l
unfolding add_prim_uuid
prim_svcs-add_prim_uuid [] c = sym (append-nil c.prim_svcs)
prim_svcs-add_prim_uuid ((s, e, u) ∷ l) c =
    prim_svcs-add_prim_uuid l _
    ∙ append_assoc c.prim_svcs (add_prim_uuid_entry (s, e, u) ∷ []) (map add_prim_uuid_entry l)

pub prim_svcs_cnt-add_prim_uuid :
    (l : List (SvcAttr Text)) (c : GattCl) → (add_prim_uuid l c).prim_svcs_cnt ≡ c.prim_svcs_cnt
unfolding add_prim_uuid
prim_svcs_cnt-add_prim_uuid [] c = refl
prim_svcs_cnt-add_prim_uuid ((s, e, u) ∷ l) c = prim_svcs_cnt-add_prim_uuid l _

abbrev pub add_incl_entry : InclAttr Text → Handle × Handle × Handle × Text
add_incl_entry (h, (s, e, u)) = (hex (hdl_hex h), hex (hdl_hex s), hex (hdl_hex e), u)

pub incl_svcs-add_incl :
    (l : List (InclAttr Text)) (c : GattCl)
    → (add_incl l c).incl_svcs ≡ c.incl_svcs ++ map add_incl_entry l
unfolding add_incl
incl_svcs-add_incl [] c = sym (append-nil c.incl_svcs)
incl_svcs-add_incl ((h, (s, e, u)) ∷ l) c =
    incl_svcs-add_incl l _
    ∙ append_assoc c.incl_svcs (add_incl_entry (h, (s, e, u)) ∷ []) (map add_incl_entry l)

pub incl_svcs_cnt-add_incl :
    (l : List (InclAttr Text)) (c : GattCl) → (add_incl l c).incl_svcs_cnt ≡ c.incl_svcs_cnt
unfolding add_incl
incl_svcs_cnt-add_incl [] c = refl
incl_svcs_cnt-add_incl ((h, (s, e, u)) ∷ l) c = incl_svcs_cnt-add_incl l _

abbrev pub add_chrcs_entry : ChrcAttr Text → ℕ × Text
add_chrcs_entry (h, v, p, u) = (v, u)

pub chrcs-add_chrcs :
    (l : List (ChrcAttr Text)) (c : GattCl)
    → (add_chrcs l c).chrcs ≡ c.chrcs ++ map add_chrcs_entry l
unfolding add_chrcs
chrcs-add_chrcs [] c = sym (append-nil c.chrcs)
chrcs-add_chrcs ((h, v, p, u) ∷ l) c =
    chrcs-add_chrcs l _
    ∙ append_assoc c.chrcs (add_chrcs_entry (h, v, p, u) ∷ []) (map add_chrcs_entry l)

pub chrcs_cnt-add_chrcs :
    (l : List (ChrcAttr Text)) (c : GattCl) → (add_chrcs l c).chrcs_cnt ≡ c.chrcs_cnt
unfolding add_chrcs
chrcs_cnt-add_chrcs [] c = refl
chrcs_cnt-add_chrcs ((h, v, p, u) ∷ l) c = chrcs_cnt-add_chrcs l _

abbrev pub add_dscs_entry : DescAttr Text → ℕ × Text
add_dscs_entry (h, u) = (int_hex (hdl_hex h), u)

pub dscs-add_dscs :
    (l : List (DescAttr Text)) (c : GattCl) → (add_dscs l c).dscs ≡ c.dscs ++ map add_dscs_entry l
unfolding add_dscs
dscs-add_dscs [] c = sym (append-nil c.dscs)
dscs-add_dscs ((h, u) ∷ l) c =
    dscs-add_dscs l _ ∙ append_assoc c.dscs (add_dscs_entry (h, u) ∷ []) (map add_dscs_entry l)

pub dscs_cnt-add_dscs :
    (l : List (DescAttr Text)) (c : GattCl) → (add_dscs l c).dscs_cnt ≡ c.dscs_cnt
unfolding add_dscs
dscs_cnt-add_dscs [] c = refl
dscs_cnt-add_dscs ((h, u) ∷ l) c = dscs_cnt-add_dscs l _

pub chrcs-store_chrcs :
    (l : List (ChrcAttr Text)) (c : GattCl)
    → ((store_chrcs l c).chrcs ≡ c.chrcs) × ((store_chrcs l c).chrcs_cnt ≡ c.chrcs_cnt)
unfolding store_chrcs
chrcs-store_chrcs [] c = (refl, refl)
chrcs-store_chrcs ((h, v, p, u) ∷ l) c = chrcs-store_chrcs l _
