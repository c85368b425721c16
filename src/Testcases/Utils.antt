-- ===== src/Testcases/Utils.antt =====
-- testcases/utils.py: the tests that the test cases give to the waits for events.
use btptester_core.Prelude.{
  ℕ, Bool, true, false, ◌&&◌, Option, none, some, List, [], ◌∷◌, Bytes, Text, text_eq, length, leb,
  ◌==◌, if◌then◌else◌,
}
use btptester_core.Result.{
  Result, ok, err, type_error, index_error, attribute_error, value_error, ◌>>=◌,
}
use btptester_core.Address.{BleAddress, ble_eq}
use btptester_core.Ad.{Record, parse_ad, ad_find_uuid16}
use btptester_core.Uuid.{btp2uuid}
use btptester_core.Gap.{ConnParams}
use btptester_core.Events.Args.{
  EvArgs, nothing, found, addr_params, addr_tuple, bare_addr, addr_number, two_addrs, notification,
  value_changed,
}

-- find_adv_by_addr(args, addr)
unfoldable pub find_adv_by_addr : EvArgs → BleAddress → Result Bool
find_adv_by_addr (found adv) addr = ok (ble_eq adv.addr addr)
find_adv_by_addr _ addr = err attribute_error

unfoldable pub is_in : Text → List Text → Bool
is_in t [] = false
is_in t (u ∷ us) = if text_eq t u then true else is_in t us

-- An exception of `parse_ad` is caught, one of `ad_find_uuid16` is not.
abbrev advertises : Text → Option (Result (List Record)) → Result Bool
advertises uuid none = ok false
advertises uuid (some (err e)) = ok false
advertises uuid (some (ok ad)) = do uuids ← ad_find_uuid16 ad; ok (is_in uuid uuids)

-- find_adv_by_uuid(args, uuid); arguments without an `eir` raise inside the `try`
unfoldable pub find_adv_by_uuid : EvArgs → Text → Result Bool
unfolding is_in
find_adv_by_uuid (found adv) uuid = advertises uuid (parse_ad adv.eir)
find_adv_by_uuid _ uuid = ok false

-- `lambda args: find_adv_by_uuid(args, btp2uuid(len(uuid), uuid))`
unfoldable pub verify_uuid : Bytes → EvArgs → Result Bool
verify_uuid uuid args = do t ← btp2uuid (length uuid) uuid; find_adv_by_uuid args t

-- args[0] == addr; a number is compared by the address, which wants attributes of it
unfoldable pub verify_address : EvArgs → BleAddress → Result Bool
verify_address nothing addr = err type_error
verify_address (found adv) addr = ok (ble_eq adv.addr addr)
verify_address (addr_params a p) addr = ok (ble_eq a addr)
verify_address (addr_tuple a) addr = ok (ble_eq a addr)
verify_address (bare_addr a) addr = err type_error
verify_address (addr_number a n) addr = ok (ble_eq a addr)
verify_address (two_addrs a b) addr = ok (ble_eq a addr)
verify_address (notification a t h v) addr = ok (ble_eq a addr)
verify_address (value_changed h v) addr = err attribute_error

unfoldable pub params_in_range : ConnParams → ℕ → ℕ → ℕ → ℕ → Bool
params_in_range params itvl_min itvl_max latency timeout =
    leb itvl_min params.conn_itvl
    && (leb params.conn_itvl itvl_max
        && ((params.conn_latency == latency) && (params.supervision_timeout == timeout)))

-- args[1] that is no ConnParams: its attributes are read only if the address is the right one
abbrev other_params : Result Bool → Result Bool
other_params (ok true) = err attribute_error
other_params r = r

unfoldable pub verify_conn_params : EvArgs → BleAddress → ℕ → ℕ → ℕ → ℕ → Result Bool
unfolding verify_address params_in_range
verify_conn_params (addr_params a p) addr itvl_min itvl_max latency timeout =
    ok (ble_eq a addr && params_in_range p itvl_min itvl_max latency timeout)
verify_conn_params nothing addr itvl_min itvl_max latency timeout = err type_error
verify_conn_params (bare_addr a) addr itvl_min itvl_max latency timeout = err type_error
verify_conn_params (addr_tuple a) addr itvl_min itvl_max latency timeout = err index_error
verify_conn_params args addr itvl_min itvl_max latency timeout =
    other_params (verify_address args addr)

-- The attribute events: args[0] == handle and args[1] == value.
unfoldable pub verify_value_changed_ev : EvArgs → ℕ → Text → Result Bool
verify_value_changed_ev (value_changed h v) handle value = ok ((h == handle) && text_eq v value)
verify_value_changed_ev nothing handle value = err type_error
verify_value_changed_ev (bare_addr a) handle value = err type_error
verify_value_changed_ev (found adv) handle value = err attribute_error
verify_value_changed_ev (addr_params a p) handle value = err attribute_error
verify_value_changed_ev (addr_tuple a) handle value = err attribute_error
verify_value_changed_ev (addr_number a n) handle value = err attribute_error
verify_value_changed_ev (two_addrs a b) handle value = err attribute_error
verify_value_changed_ev (notification a t h v) handle value = err attribute_error

-- On the address, the type, the handle and the value of a notification.
unfoldable pub verify_notification_ev : BleAddress × ℕ × ℕ × Text → BleAddress → ℕ → ℕ → Bool
verify_notification_ev (a, t, h, v) addr type handle =
    ble_eq a addr && ((t == type) && (h == handle))

-- addr, _ = args: the values of events that come in pairs
unfoldable pub first_of : Option EvArgs → Result BleAddress
first_of (some (addr_params a p)) = ok a
first_of (some (addr_number a n)) = ok a
first_of (some (two_addrs a b)) = ok a
first_of (some (addr_tuple a)) = err value_error
first_of (some (found adv)) = err value_error
first_of (some (notification a t h v)) = err value_error
first_of _ = err type_error
