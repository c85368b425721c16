-- ===== src/Testcases/Gatt.antt =====
-- testcases/GattTestCase.py: what the test cases are made of. Each step uses the GATT client
-- service where the first device has it, and the older one otherwise.
pub mod Steps
pub mod PtsDb
pub mod Discovery
pub mod Values
use btptester_core.Prelude.{Bool, false, Option, none, some, List, [], ◌∷◌, Text}
use btptester_core.Result.{Result, ok, err, attribute_error, struct_error}
use btptester_core.GattDb.{GattDb, GattAttribute, Kind, primary, secondary, get_services}
use btptester_core.GattDb.Handles.{Handle, hex}
use btptester_core.GattCl.{GattCl}
use btptester_core.Waiting
use btptester_core.Waiting.{Look}
use btptester_core.Exec.{pure, lift, of_option, ◌>>=◌, ◌>>◌}
use btptester_core.Worker.{World, Btp}
use btptester_core.Commands.Db.{DbBtp}
use btptester_core.Commands.Gattc.{
  gattc_disc_prim_svcs, gattc_disc_prim_uuid, gattc_find_included, gattc_disc_all_chrc,
  gattc_disc_chrc_uuid, gattc_disc_all_desc,
}
use btptester_core.Commands.Gattc.Responses.{
  gattc_disc_prim_svcs_rsp, gattc_disc_prim_uuid_rsp, gattc_find_included_rsp,
  gattc_disc_all_chrc_rsp, gattc_disc_chrc_uuid_rsp, gattc_disc_all_desc_rsp,
}
use btptester_core.Commands.GattCl.{
  gatt_cl_disc_prim_svcs, gatt_cl_disc_prim_uuid, gatt_cl_find_included, gatt_cl_disc_all_chrc,
  gatt_cl_disc_chrc_uuid, gatt_cl_disc_all_desc,
}
use btptester_core.Testcases.Bench.{
  Side, iut1, iut2, Test, Future, pause, on, stack_of, iut_addr_get, listen, wait_futures, result,
  check,
}

-- `if stack.gatt_cl`, on the stack of the first device
abbrev pub by_service : {A : Type 0} → Test A → Test A → Option GattCl → Test A
by_service client older (some cl) = client
by_service client older none = older

abbrev pub choose : {A : Type 0} → Test A → Test A → Test A
choose client older = do s ← stack_of iut1; by_service client older s.gatt_cl

abbrev pub the_client : Test GattCl
the_client = do s ← stack_of iut1; of_option s.gatt_cl

-- One of the waits of stack/gatt_cl.py: a look, and one more behind what arrives meanwhile. Whether
-- it has found the procedure done is not asked.
unfoldable pub await : (GattCl → List (Look GattCl) → Result Bool) → Test (Unit {0})
unfolding pause
await wait = do
  now ← the_client
  pause
  later ← the_client
  _ ← lift (wait now ((false, later) ∷ []))
  pure tt

abbrev client_db : Test GattDb
client_db = do cl ← the_client; pure cl.db

-- A function that fills a database, on a device.
abbrev db_only : Result (Unit {0}) × (World × GattDb) → Result GattDb × World
db_only (ok u, (w, db)) = (ok db, w)
db_only (err e, (w, db)) = (err e, w)

abbrev pub filled : GattDb → DbBtp (Unit {0}) → Btp GattDb
filled db fill w = db_only (fill (w, db))

unfoldable pub disc_prim_svcs : Side → Side → Test GattDb
disc_prim_svcs a b =
    choose
      (do
        addr ← iut_addr_get b
        on a (gatt_cl_disc_prim_svcs addr)
        await Waiting.wait_for_prim_svcs
        client_db)
      (do
        addr ← iut_addr_get b
        on a (gattc_disc_prim_svcs addr)
        on iut1 (filled [] gattc_disc_prim_svcs_rsp))

unfoldable pub disc_prim_uuid : Side → Side → Text → Test GattDb
disc_prim_uuid a b uuid =
    choose
      (do
        addr ← iut_addr_get b
        on a (gatt_cl_disc_prim_uuid addr uuid)
        await Waiting.wait_for_prim_svcs
        client_db)
      (do
        addr ← iut_addr_get b
        on a (gattc_disc_prim_uuid addr uuid)
        on iut1 (filled [] gattc_disc_prim_uuid_rsp))

-- svc.end_hdl, which only services have
abbrev end_of : Kind → Result (Option Handle)
end_of (primary e) = ok e
end_of (secondary e) = ok e
end_of _ = err attribute_error

-- svc.handle, svc.end_hdl; a range with no end cannot be packed
unfoldable pub range_of : GattAttribute → Test (Handle × Handle)
range_of svc = do
  e ← lift (end_of svc.kind)
  lift (elim e [ none ↦ err struct_error | some h ↦ ok (svc.handle, h) ])

-- the loop over the services
unfoldable pub find_included_in : List GattAttribute → GattDb → Test GattDb
find_included_in [] db = pure db
find_included_in (svc ∷ svcs) db = do
  e ← lift (end_of svc.kind)
  addr ← iut_addr_get iut2
  on iut1 (gattc_find_included addr svc.handle e)
  db' ← on iut1 (filled db gattc_find_included_rsp)
  find_included_in svcs db'

unfoldable pub find_included_svcs : Side → Side → GattDb → Test GattDb
unfolding find_included_in
find_included_svcs a b db =
    choose
      (do
        addr ← iut_addr_get b
        on a (
            gatt_cl_find_included addr (hex (b'0' ∷ b'0' ∷ b'0' ∷ b'1' ∷ []))
              (hex (b'F' ∷ b'F' ∷ b'F' ∷ b'F' ∷ [])))
        await Waiting.wait_for_incl_svcs
        client_db)
      (do svcs ← lift (get_services db); find_included_in svcs db)

unfoldable pub disc_all_chrc : Side → Side → Handle → Handle → Test GattDb
disc_all_chrc a b start_hdl end_hdl =
    choose
      (do
        addr ← iut_addr_get b
        on a (gatt_cl_disc_all_chrc addr start_hdl end_hdl none)
        await Waiting.wait_for_chrcs
        client_db)
      (do
        addr ← iut_addr_get b
        on a (gattc_disc_all_chrc addr start_hdl end_hdl none)
        on iut1 (filled [] gattc_disc_all_chrc_rsp))

unfoldable pub disc_chrc_uuid : Side → Side → Handle → Handle → Text → Test GattDb
disc_chrc_uuid a b start_hdl stop_hdl uuid =
    choose
      (do
        addr ← iut_addr_get b
        on a (gatt_cl_disc_chrc_uuid addr start_hdl stop_hdl uuid)
        await Waiting.wait_for_chrcs
        client_db)
      (do
        addr ← iut_addr_get b
        on a (gattc_disc_chrc_uuid addr start_hdl stop_hdl uuid)
        on iut1 (filled [] gattc_disc_chrc_uuid_rsp))

unfoldable pub disc_all_desc : Side → Side → Handle → Handle → Test GattDb
disc_all_desc a b start_hdl stop_hdl =
    choose
      (do
        addr ← iut_addr_get b
        on a (gatt_cl_disc_all_desc addr start_hdl stop_hdl)
        await Waiting.wait_for_descs
        client_db)
      (do
        addr ← iut_addr_get b
        on a (gattc_disc_all_desc addr start_hdl stop_hdl)
        on iut1 (filled [] gattc_disc_all_desc_rsp))
