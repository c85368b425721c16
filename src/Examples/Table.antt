-- ===== src/Examples/Table.antt =====
-- The command tables, the look-ups and the core service at concrete inputs.
use btptester_core.Prelude.{ℕ, ◌≡◌, [], ◌∷◌, All, some, none}
use btptester_core.Result.{ok}
use btptester_core.Stack
use btptester_core.Worker.{World}
use btptester_core.GattDb.{
  GattAttribute, is_service, is_included, is_characteristic, is_descriptor, primary,
  find_svc_by_uuid, find_inc_svc_by_uuid, find_chr_by_uuid, find_dsc_by_uuid,
}
use btptester_core.GattDb.Handles.{num}
use btptester_core.GattDb.Search.{Numbered, by_number, lowest_of, find_by_uuid-lowest_of}
use btptester_core.Commands.Replies.{commands, IsResponse, commands-IsResponse}

commands-IsResponse_example : All (IsResponse 0 4) commands
commands-IsResponse_example = commands-IsResponse 0 4

abbrev world : World
world = record { stack = Stack.init; sent = []; rx_queue = [] }

abbrev service : ℕ → GattAttribute
service n = record {
  handle = num n;
  perm = 1;
  uuid = some (b'1' ∷ []);
  att_read_rsp = 0;
  kind = primary none;
}

abbrev db : Numbered
db = (9, service 9) ∷ (4, service 4) ∷ []

find_by_uuid-lowest_of_example :
    (find_svc_by_uuid (by_number db) (b'1' ∷ []) ≡ ok (lowest_of is_service (b'1' ∷ []) db))
    × (find_inc_svc_by_uuid (by_number db) (b'1' ∷ []) ≡ ok (lowest_of is_included (b'1' ∷ []) db))
    × (find_chr_by_uuid (by_number db) (b'1' ∷ [])
        ≡ ok (lowest_of is_characteristic (b'1' ∷ []) db))
    × (find_dsc_by_uuid (by_number db) (b'1' ∷ []) ≡ ok (lowest_of is_descriptor (b'1' ∷ []) db))
find_by_uuid-lowest_of_example = find_by_uuid-lowest_of db (b'1' ∷ [])
