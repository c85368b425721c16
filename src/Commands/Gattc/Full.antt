-- ===== src/Commands/Gattc/Full.antt =====
-- `gattc_disc_full` of pybtp/btp.py: everything that the device's server has.
use btptester_core.Prelude.{ℕ, ◌+◌, Option, none, some}
use btptester_core.Result.{Result, err, assertion_error, attribute_error, struct_error}
use btptester_core.Address.{BleAddress}
use btptester_core.GattDb.{
  GattAttribute, primary, secondary, get_services, get_characteristics, find_characteristic_end,
}
use btptester_core.GattDb.Handles.{Handle, num}
use btptester_core.Exec.{raise, lift, ◌>>=◌, ◌>>◌}
use btptester_core.Commands.Db.{DbBtp, on_world, for_each}
use btptester_core.Commands.Gap.{gap_wait_for_connection}
use btptester_core.Commands.Gattc.{
  gattc_disc_prim_svcs, gattc_find_included, gattc_disc_all_chrc, gattc_disc_all_desc,
}
use btptester_core.Commands.Gattc.Responses.{
  gattc_disc_prim_svcs_rsp, gattc_find_included_rsp, gattc_disc_all_chrc_rsp,
  gattc_disc_all_desc_rsp,
}

-- svc.end_hdl; the loop calls it on services
unfoldable pub end_hdl : GattAttribute → Option Handle
end_hdl a = elim a.kind [ primary e ↦ e | secondary e ↦ e | _ ↦ none ]

-- char.value_hdl: no class of stack/gatt.py has an attribute of this name, that of characteristics
-- is `value_handle`
unfoldable pub value_hdl : GattAttribute → Result ℕ
value_hdl char = err attribute_error

-- `gattc_find_included` does not return for a service without an end handle
abbrev disc_chrcs : BleAddress → Handle → Option Handle → DbBtp (Unit {0})
disc_chrcs bd_addr start none = raise struct_error
disc_chrcs bd_addr start (some end) = do
  on_world (gattc_disc_all_chrc bd_addr start end none)
  gattc_disc_all_chrc_rsp

unfoldable pub disc_service : BleAddress → GattAttribute → DbBtp (Unit {0})
unfolding end_hdl
disc_service bd_addr svc = do
  on_world (gattc_find_included bd_addr svc.handle (end_hdl svc))
  gattc_find_included_rsp
  disc_chrcs bd_addr svc.handle (end_hdl svc)

-- `assert(end_hdl is not None)`
abbrev disc_descs : BleAddress → ℕ → Option ℕ → DbBtp (Unit {0})
disc_descs bd_addr start none = raise assertion_error
disc_descs bd_addr start (some end) = do
  on_world (gattc_disc_all_desc bd_addr (num start) (num end))
  gattc_disc_all_desc_rsp

unfoldable pub disc_characteristic : BleAddress → GattAttribute → DbBtp (Unit {0})
unfolding value_hdl
disc_characteristic bd_addr char = do
  value_handle ← lift (value_hdl char)
  end ← λ s. lift (find_characteristic_end s.1 char.handle) s
  disc_descs bd_addr (value_handle + 1) end

unfoldable pub gattc_disc_full : BleAddress → DbBtp (Unit {0})
unfolding gap_wait_for_connection disc_service disc_characteristic for_each
gattc_disc_full bd_addr = do
  on_world gap_wait_for_connection
  on_world (gattc_disc_prim_svcs bd_addr)
  gattc_disc_prim_svcs_rsp
  svcs ← λ s. lift (get_services s.1) s
  for_each (disc_service bd_addr) svcs
  chars ← λ s. lift (get_characteristics s.1) s
  for_each (disc_characteristic bd_addr) chars
