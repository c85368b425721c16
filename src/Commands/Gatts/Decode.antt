-- ===== src/Commands/Gatts/Decode.antt =====
-- The decoders of the GATT server's answers in pybtp/btp.py (`dec_gatts_get_attrs_rp`,
-- `gatts_parse_attribute`).
pub mod RoundTrip
use btptester_core.Prelude.{
  ℕ, zero, suc, ◌-◌, ◌||◌, Option, none, some, List, [], ◌∷◌, Bytes, Text, text_eq, length, leb,
  ltb, drop, if◌then◌else◌,
}
use btptester_core.Result.{Result, ok, err, struct_error, ◌>>=◌}
use btptester_core.Struct
use btptester_core.Struct.{Reader, u8, u16, raw, unpack, unpack_from}
use btptester_core.Uuid.{btp2uuid}

-- a length that a format is built with: struct.error if it is negative
unfoldable pub minus : ℕ → ℕ → Result ℕ
minus a b = if leb b a then ok (a - b) else err struct_error

-- '<B%ds', '<HBB%ds', '%ds%ds', '<BH%ds' and '<HH%ds'
abbrev pub b_s : ℕ → Reader (ℕ × Bytes)
b_s n = Struct.◌>>=◌ u8 λ a. Struct.◌>>=◌ (raw n) λ s. Struct.pure (a, s)

abbrev pub h_b_b_s : ℕ → Reader (ℕ × ℕ × ℕ × Bytes)
h_b_b_s n = Struct.◌>>=◌ u16 λ a.
    Struct.◌>>=◌ u8 λ b. Struct.◌>>=◌ u8 λ c. Struct.◌>>=◌ (raw n) λ s. Struct.pure (a, b, c, s)

abbrev pub s_s : ℕ → ℕ → Reader (Bytes × Bytes)
s_s m n = Struct.◌>>=◌ (raw m) λ s. Struct.◌>>=◌ (raw n) λ t. Struct.pure (s, t)

abbrev pub b_h_s : ℕ → Reader (ℕ × ℕ × Bytes)
b_h_s n = Struct.◌>>=◌ u8 λ a. Struct.◌>>=◌ u16 λ b. Struct.◌>>=◌ (raw n) λ s. Struct.pure (a, b, s)

abbrev pub h_h_s : ℕ → Reader (ℕ × ℕ × Bytes)
h_h_s n =
    Struct.◌>>=◌ u16 λ a. Struct.◌>>=◌ u16 λ b. Struct.◌>>=◌ (raw n) λ s. Struct.pure (a, b, s)

-- '2800' to '2803' (types.py, class UUID)
abbrev pub primary_svc : Text
primary_svc = b'2' ∷ b'8' ∷ b'0' ∷ b'0' ∷ []

abbrev pub secondary_svc : Text
secondary_svc = b'2' ∷ b'8' ∷ b'0' ∷ b'1' ∷ []

abbrev pub include_svc : Text
include_svc = b'2' ∷ b'8' ∷ b'0' ∷ b'2' ∷ []

abbrev pub chrc : Text
chrc = b'2' ∷ b'8' ∷ b'0' ∷ b'3' ∷ []

-- handle, permissions and type
abbrev pub AttrInfo : Type 0
AttrInfo = ℕ × ℕ × Text

-- the loop of `dec_gatts_get_attrs_rp`
unfoldable pub dec_infos : ℕ → ℕ → Bytes → Result (List AttrInfo)
dec_infos zero data_len attrs = ok []
dec_infos (suc attr_count) data_len attrs = do
  frag_len ← minus data_len 4
  (handle, permission, type_uuid_len, frag) ← unpack (h_b_b_s frag_len) attrs
  rest_len ← minus frag_len type_uuid_len
  (type_uuid, rest) ← unpack (s_s type_uuid_len rest_len) frag
  u ← btp2uuid type_uuid_len type_uuid
  attributes ← dec_infos attr_count rest_len rest
  ok ((handle, permission, u) ∷ attributes)

unfoldable pub dec_gatts_get_attrs_rp : Bytes → ℕ → Result (List AttrInfo)
unfolding dec_infos
dec_gatts_get_attrs_rp dat data_len = do
  attrs_len ← minus data_len 1
  (attr_count, attrs) ← unpack (b_s attrs_len) dat
  dec_infos attr_count attrs_len attrs

-- What `gatts_parse_attribute` returns.
pub data Parsed : Type 0 where
  service : ℕ → ℕ → Text → Parsed
  include : ℕ → ℕ → ℕ → Option Text → Parsed
  characteristic : ℕ → ℕ → ℕ → Text → Parsed
  descriptor : ℕ → Text → Parsed

abbrev h_h : Reader (ℕ × ℕ)
h_h = Struct.◌>>=◌ u16 λ a. Struct.◌>>=◌ u16 λ b. Struct.pure (a, b)

abbrev b_h : Reader (ℕ × ℕ)
b_h = Struct.◌>>=◌ u8 λ a. Struct.◌>>=◌ u16 λ b. Struct.pure (a, b)

-- the UUID of an included service, where there is one
unfoldable pub incl_uuid : ℕ → Bytes → Result (Option Text)
unfolding btp2uuid
incl_uuid uuid_len uuid =
    if ltb 0 uuid_len then (do u ← btp2uuid uuid_len uuid; ok (some u)) else ok none

unfoldable pub parse_service : ℕ → Bytes → Result Parsed
unfolding btp2uuid
parse_service hdl value = do
  svc_uuid ← btp2uuid (length value) value
  ok (service hdl 0xffff svc_uuid)

unfoldable pub parse_include : ℕ → Bytes → Result Parsed
unfolding incl_uuid
parse_include hdl value = do
  (incl_hdl, end_hdl) ← unpack_from h_h value
  u ← incl_uuid (length value - 4) (drop 4 value)
  ok (include hdl incl_hdl end_hdl u)

unfoldable pub parse_chrc : ℕ → Bytes → Result Parsed
unfolding btp2uuid
parse_chrc hdl value = do
  (props, val_hdl) ← unpack_from b_h value
  chr_uuid ← btp2uuid (length value - 3) (drop 3 value)
  ok (characteristic hdl val_hdl props chr_uuid)

-- `data` is the ATT response, the length and the value that `gatts_get_attr_val` returns
unfoldable pub gatts_parse_attribute : ℕ → ℕ → Text → ℕ × ℕ × Bytes → Result Parsed
unfolding parse_service parse_include parse_chrc
gatts_parse_attribute hdl perm type_uuid (att_rsp, val_len, value) =
    if text_eq type_uuid primary_svc || text_eq type_uuid secondary_svc
    then parse_service hdl value
    else if text_eq type_uuid include_svc
    then parse_include hdl value
    else if text_eq type_uuid chrc
    then parse_chrc hdl value
    else ok (descriptor hdl type_uuid)
