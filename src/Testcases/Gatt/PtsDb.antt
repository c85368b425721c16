-- ===== src/Testcases/Gatt/PtsDb.antt =====
-- PTS_DB and UUID of pybtp/types.py, as far as the GATT test cases use them.
use Prim.Native.Char.{code}
use Prim.Native.String.{String}
use btptester_core.Prelude.{[], ◌∷◌, ◌++◌, Text}

abbrev codes : String → Text
codes String.[] = []
codes (String.◌∷◌ c s) = code c ∷ codes s

-- PTS_UUID_FMT.format(digits)
unfoldable pub pts_uuid : String → Text
pts_uuid digits = codes "0000" ++ (codes digits ++ codes "8C26476F89A7A108033A69C7")

abbrev pub svc : Text
svc = pts_uuid "0001"

abbrev pub chr_read_write : Text
chr_read_write = pts_uuid "0006"

abbrev pub dsc_read_write : Text
dsc_read_write = pts_uuid "000B"

abbrev pub chr_notify : Text
chr_notify = pts_uuid "0025"

abbrev pub long_chr_read_write : Text
long_chr_read_write = pts_uuid "0015"

abbrev pub long_dsc_read_write : Text
long_dsc_read_write = pts_uuid "001B"

abbrev pub inc_svc : Text
inc_svc = codes "001E"

abbrev pub ccc : Text
ccc = codes "2902"
