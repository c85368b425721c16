-- ===== src/Testcases/Skips.antt =====
-- testcases/BTPTestCase.py: `verify_skipped` on test_config.json, and what is set up for a test.
use btptester_core.Prelude.{Bool, true, false, none, some, String}
use btptester_core.Result.{Result, ok, err, attribute_error, type_error, skip_test, ◌>>=◌, ◌>>◌}
use btptester_core.Dict
use btptester_core.Dict.{Dict, string_eq}
use btptester_core.Exec
use btptester_core.Testcases.Bench.{IutType, android, mynewt, Side, iut1, iut2, Test, iut}
use btptester_core.Testcases.Procedures.{preconditions}

-- By type of device, then "skipped_central" or "skipped_peripheral", then name of the test case;
-- the value is the reason.
abbrev pub Config : Type 0
Config = Dict String (Dict String (Dict String String))

-- IutCtl.TYPE_ANDROID and IutCtl.TYPE_MYNEWT
abbrev pub type_name : IutType → String
type_name android = "android"
type_name mynewt = "mynewt"

-- config.get(type).get(role), where the name is looked for next
unfoldable pub skip_list : Config → IutType → String → Result (Dict String String)
skip_list config type role = elim (Dict.get config (type_name type)) [
  | none ↦ err attribute_error
  | some roles ↦ elim (Dict.get roles role) [ none ↦ err type_error | some names ↦ ok names ]
]

abbrev skip_if : Bool → Result (Unit {0})
skip_if true = err skip_test
skip_if false = ok tt

unfoldable pub check_skipped : Config → IutType → IutType → String → Result (Unit {0})
unfolding skip_list
check_skipped config first second testname = do
  central ← skip_list config first "skipped_central"
  skip_if (Dict.has_key central testname)
  peripheral ← skip_list config second "skipped_peripheral"
  skip_if (Dict.has_key peripheral testname)

-- verify_skipped(testname)
unfoldable pub verify_skipped : Config → String → Test (Unit {0})
unfolding check_skipped iut
verify_skipped config testname b = (check_skipped config b.first.type b.second.type testname, b)

-- setUp of the test cases; `ready` restarts a device and waits until it is up
unfoldable pub set_up : (Side → Test (Unit {0})) → Test (Unit {0})
set_up ready =
    Exec.◌>>◌ (ready iut1)
      (Exec.◌>>◌ (ready iut2) (Exec.◌>>◌ (preconditions iut1) (preconditions iut2)))
