-- ===== src/Events/GattCl/Complete.antt =====
-- A discovery handler that returns has completed the discovery.
use btptester_core.Prelude.{
  Bool, ℕ, suc, ◌≡◌, refl, List, [], ◌∷◌, Bytes, arith, map, length, ap, ◌∙◌, Option, some, true,
  All,
}
use btptester_core.Decode.{AttrType}
use btptester_core.GattCl.{
  GattCl, is_prim_disc_complete, is_incl_disc_complete, is_chrcs_disc_complete,
  is_dscs_disc_complete, is_procedure_done,
}
use btptester_core.Events.GattCl.Loops.{
  prim_entry, add_prim_uuid_entry, add_incl_entry, add_chrcs_entry, add_dscs_entry,
  prim_svcs-add_all_prim, prim_svcs_cnt-add_all_prim, prim_svcs-add_prim_uuid,
  prim_svcs_cnt-add_prim_uuid, incl_svcs-add_incl, incl_svcs_cnt-add_incl, chrcs-add_chrcs,
  chrcs_cnt-add_chrcs, chrcs-store_chrcs, dscs-add_dscs, dscs_cnt-add_dscs,
}
use btptester_core.Events.GattCl.{
  add_all_prim, add_prim_uuid, add_incl, add_chrcs, store_chrcs, add_dscs, Bool,
  gatt_cl_disc_all_prim_rsp_ev_, gatt_cl_disc_all_desc_rsp_ev_, gatt_cl_find_incld_rsp_ev_,
  gatt_cl_disc_all_chrc_rsp_ev_, gatt_cl_disc_prim_uuid_rsp_ev_, gatt_cl_disc_chrc_uuid_rsp_ev_,
}
use btptester_core.Stack.{Stack}
use btptester_core.Events.Args.{Handler}
use btptester_core.Events.GattCl.Procedure.{raises_or, disc_ev-done}

length-map : {A B : Type 0} (f : A → B) (l : List A) → length (map f l) ≡ length l
length-map f [] = refl
length-map f (x ∷ l) = ap suc (length-map f l)

-- A list with one entry for each of as many attributes as the count says is complete.
is_procedure_done-map :
    {A B : Type 0} (f : A → B) (l : List A) (n : ℕ) {entries : List B} {cnt : Option ℕ}
    → entries ≡ map f l
    → cnt ≡ some n
    → length l ≡ n
    → is_procedure_done entries cnt ≡ true
unfolding is_procedure_done
is_procedure_done-map f l n e c h = rw (e, c, length-map f l) (ground (arith, h))

disc_all_prim-done :
    (dat : Bytes) (s : Stack)
    → raises_or is_prim_disc_complete (gatt_cl_disc_all_prim_rsp_ev_ dat s) ≡ true
unfolding gatt_cl_disc_all_prim_rsp_ev_ is_prim_disc_complete is_procedure_done
disc_all_prim-done dat s =
    disc_ev-done AttrType.service (λ n c. record c { prim_svcs = []; prim_svcs_cnt = some n })
      add_all_prim is_prim_disc_complete (λ c. refl)
      (λ n l c.
        is_procedure_done-map prim_entry l n (prim_svcs-add_all_prim l _)
          (prim_svcs_cnt-add_all_prim l _))
      dat s s.gatt_cl refl

disc_prim_uuid-done :
    (dat : Bytes) (s : Stack)
    → raises_or is_prim_disc_complete (gatt_cl_disc_prim_uuid_rsp_ev_ dat s) ≡ true
unfolding gatt_cl_disc_prim_uuid_rsp_ev_ is_prim_disc_complete is_procedure_done
disc_prim_uuid-done dat s =
    disc_ev-done AttrType.service (λ n c. record c { prim_svcs = []; prim_svcs_cnt = some n })
      add_prim_uuid is_prim_disc_complete (λ c. refl)
      (λ n l c.
        is_procedure_done-map add_prim_uuid_entry l n (prim_svcs-add_prim_uuid l _)
          (prim_svcs_cnt-add_prim_uuid l _))
      dat s s.gatt_cl refl

find_incld-done :
    (dat : Bytes) (s : Stack)
    → raises_or is_incl_disc_complete (gatt_cl_find_incld_rsp_ev_ dat s) ≡ true
unfolding gatt_cl_find_incld_rsp_ev_ is_incl_disc_complete is_procedure_done
find_incld-done dat s =
    disc_ev-done AttrType.include (λ n c. record c { incl_svcs = []; incl_svcs_cnt = some n })
      add_incl is_incl_disc_complete (λ c. refl)
      (λ n l c.
        is_procedure_done-map add_incl_entry l n (incl_svcs-add_incl l _)
          (incl_svcs_cnt-add_incl l _))
      dat s s.gatt_cl refl

disc_all_chrc-done :
    (dat : Bytes) (s : Stack)
    → raises_or is_chrcs_disc_complete (gatt_cl_disc_all_chrc_rsp_ev_ dat s) ≡ true
unfolding gatt_cl_disc_all_chrc_rsp_ev_ is_chrcs_disc_complete is_procedure_done
disc_all_chrc-done dat s =
    disc_ev-done AttrType.characteristic (λ n c. record c { chrcs = []; chrcs_cnt = some n })
      (λ l c. store_chrcs l (add_chrcs l c)) is_chrcs_disc_complete (λ c. refl)
      (λ n l c.
        is_procedure_done-map add_chrcs_entry l n ((chrcs-store_chrcs l _).0 ∙ chrcs-add_chrcs l _)
          ((chrcs-store_chrcs l _).1 ∙ chrcs_cnt-add_chrcs l _))
      dat s s.gatt_cl refl

disc_chrc_uuid-done :
    (dat : Bytes) (s : Stack)
    → raises_or is_chrcs_disc_complete (gatt_cl_disc_chrc_uuid_rsp_ev_ dat s) ≡ true
unfolding gatt_cl_disc_chrc_uuid_rsp_ev_ is_chrcs_disc_complete is_procedure_done
disc_chrc_uuid-done dat s =
    disc_ev-done AttrType.characteristic (λ n c. record c { chrcs = []; chrcs_cnt = some n })
      (λ l c. store_chrcs l (add_chrcs l c)) is_chrcs_disc_complete (λ c. refl)
      (λ n l c.
        is_procedure_done-map add_chrcs_entry l n ((chrcs-store_chrcs l _).0 ∙ chrcs-add_chrcs l _)
          ((chrcs-store_chrcs l _).1 ∙ chrcs_cnt-add_chrcs l _))
      dat s s.gatt_cl refl

disc_all_desc-done :
    (dat : Bytes) (s : Stack)
    → raises_or is_dscs_disc_complete (gatt_cl_disc_all_desc_rsp_ev_ dat s) ≡ true
unfolding gatt_cl_disc_all_desc_rsp_ev_ is_dscs_disc_complete is_procedure_done
disc_all_desc-done dat s =
    disc_ev-done AttrType.descriptor (λ n c. record c { dscs = []; dscs_cnt = some n }) add_dscs
      is_dscs_disc_complete (λ c. refl)
      (λ n l c.
        is_procedure_done-map add_dscs_entry l n (dscs-add_dscs l _) (dscs_cnt-add_dscs l _))
      dat s s.gatt_cl refl

-- The six discovery handlers, each with the test that waits for it.
abbrev pub discoveries : List ((Bytes → Handler) × (GattCl → Bool))
discoveries =
    (gatt_cl_disc_all_prim_rsp_ev_, is_prim_disc_complete)
    ∷ (gatt_cl_disc_prim_uuid_rsp_ev_, is_prim_disc_complete)
    ∷ (gatt_cl_find_incld_rsp_ev_, is_incl_disc_complete)
    ∷ (gatt_cl_disc_all_chrc_rsp_ev_, is_chrcs_disc_complete)
    ∷ (gatt_cl_disc_chrc_uuid_rsp_ev_, is_chrcs_disc_complete)
    ∷ (gatt_cl_disc_all_desc_rsp_ev_, is_dscs_disc_complete)
    ∷ []

-- On every payload and stack, a discovery handler either raises or leaves the GATT client's state
-- such that the test which waits for that discovery is true.
pub discoveries_done :
    (dat : Bytes) (s : Stack) → All (λ d. raises_or d.1 (d.0 dat s) ≡ true) discoveries
discoveries_done dat s = (
  disc_all_prim-done dat s,
  (
    disc_prim_uuid-done dat s,
    (
      find_incld-done dat s,
      (disc_all_chrc-done dat s, (disc_chrc_uuid-done dat s, (disc_all_desc-done dat s, tt))),
    ),
  ),
)
