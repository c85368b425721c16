-- ===== src/Commands/Table/Gatts.antt =====
-- The table `GATTS` of pybtp/btp.py.
use btptester_core.Prelude.{none, some, [], ◌∷◌, String}
use btptester_core.Dict.{Dict}
use btptester_core.Defs.Core.{btp_service_id_gatt}
use btptester_core.Defs.Gatt.{
  gatt_add_characteristic, gatt_add_descriptor, gatt_add_included_service, gatt_add_service,
  gatt_get_attribute_value, gatt_get_attributes, gatt_set_enc_key_size, gatt_set_value,
  gatt_start_server,
}
use btptester_core.Commands.Table.{Cmd, controller_index, text}

abbrev pub gatts : Dict String Cmd
gatts =
    ("add_svc", (btp_service_id_gatt, gatt_add_service, controller_index, none))
    ∷ ("start_server", (btp_service_id_gatt, gatt_start_server, controller_index, some (text [])))
    ∷ ("add_inc_svc", (btp_service_id_gatt, gatt_add_included_service, controller_index, none))
    ∷ ("add_char", (btp_service_id_gatt, gatt_add_characteristic, controller_index, none))
    ∷ ("set_val", (btp_service_id_gatt, gatt_set_value, controller_index, none))
    ∷ ("add_desc", (btp_service_id_gatt, gatt_add_descriptor, controller_index, none))
    ∷ ("set_enc_key_size", (btp_service_id_gatt, gatt_set_enc_key_size, controller_index, none))
    ∷ ("get_attrs", (btp_service_id_gatt, gatt_get_attributes, controller_index, none))
    ∷ ("get_attr_val", (btp_service_id_gatt, gatt_get_attribute_value, controller_index, none))
    ∷ []
