-- ===== src/Decode.antt =====
-- The decoders of discovery, read and write responses in pybtp/btp.py (`gatt_dec_*` and
-- `gatt_cl_dec_*`). The two families differ in the UUID alone: the first keeps its bytes, the
-- second turns them into text. `uuid_of` is that step.
pub mod Count
pub mod RoundTrip
use btptester_core.Prelude.{ℕ, zero, suc, ◌+◌, ◌-◌, List, [], ◌∷◌, Bytes, Text, drop, length}
use btptester_core.Result.{Result, ok, err, struct_error, type_error, ◌>>=◌}
use btptester_core.Struct
use btptester_core.Struct.{Reader, u8, u16, raw, pure, unpack, unpack_from, unpack_from_at}
use btptester_core.Uuid.{btp2uuid}

-- '<HHB', '<H', '<HHBB' and '<HB'
abbrev h_h_b : Reader (ℕ × ℕ × ℕ)
h_h_b = Struct.◌>>=◌ u16 λ a. Struct.◌>>=◌ u16 λ b. Struct.◌>>=◌ u8 λ c. pure (a, b, c)

abbrev h_h_b_b : Reader (ℕ × ℕ × ℕ × ℕ)
h_h_b_b =
    Struct.◌>>=◌ u16
      λ a. Struct.◌>>=◌ u16 λ b. Struct.◌>>=◌ u8 λ c. Struct.◌>>=◌ u8 λ d. pure (a, b, c, d)

abbrev h_b : Reader (ℕ × ℕ)
h_b = Struct.◌>>=◌ u16 λ a. Struct.◌>>=◌ u8 λ b. pure (a, b)

abbrev b_h : Reader (ℕ × ℕ)
b_h = Struct.◌>>=◌ u8 λ a. Struct.◌>>=◌ u16 λ b. pure (a, b)

-- the text that selects a decoder
pub data AttrType : Type 0 where
  service include characteristic descriptor : AttrType

-- What the decoder of each type returns; `U` is the type of UUIDs.
abbrev pub SvcAttr : Type 0 → Type 0
SvcAttr U = ℕ × ℕ × U

abbrev pub InclAttr : Type 0 → Type 0
InclAttr U = ℕ × (ℕ × ℕ × U)

abbrev pub ChrcAttr : Type 0 → Type 0
ChrcAttr U = ℕ × ℕ × ℕ × U

abbrev pub DescAttr : Type 0 → Type 0
DescAttr U = ℕ × U

abbrev pub DiscAttr : Type 0 → AttrType → Type 0
DiscAttr U AttrType.service = SvcAttr U
DiscAttr U AttrType.include = InclAttr U
DiscAttr U AttrType.characteristic = ChrcAttr U
DiscAttr U AttrType.descriptor = DescAttr U

module _ {U : Type 0} (uuid_of : ℕ → Bytes → Result U) where
  -- start handle, end handle and UUID, with the number of bytes read
  unfoldable pub dec_svc_attr : Bytes → Result (SvcAttr U × ℕ)
  unfolding raw
  dec_svc_attr dat = do
    (start_hdl, end_hdl, uuid_len) ← unpack_from h_h_b dat
    uuid ← unpack_from_at (raw uuid_len) dat 5
    u ← uuid_of uuid_len uuid
    ok ((start_hdl, end_hdl, u), 5 + uuid_len)

  unfoldable pub dec_incl_attr : Bytes → Result (InclAttr U × ℕ)
  unfolding dec_svc_attr
  dec_incl_attr dat = do
    incl_hdl ← unpack_from u16 dat
    (svc, svc_len) ← dec_svc_attr (drop 2 dat)
    ok ((incl_hdl, svc), 2 + svc_len)

  unfoldable pub dec_chrc_attr : Bytes → Result (ChrcAttr U × ℕ)
  unfolding raw
  dec_chrc_attr dat = do
    (chrc_hdl, val_hdl, props, uuid_len) ← unpack_from h_h_b_b dat
    uuid ← unpack_from_at (raw uuid_len) dat 6
    u ← uuid_of uuid_len uuid
    ok ((chrc_hdl, val_hdl, props, u), 6 + uuid_len)

  unfoldable pub dec_desc_attr : Bytes → Result (DescAttr U × ℕ)
  unfolding raw
  dec_desc_attr dat = do
    (hdl, uuid_len) ← unpack_from h_b dat
    uuid ← unpack_from_at (raw uuid_len) dat 3
    u ← uuid_of uuid_len uuid
    ok ((hdl, u), 3 + uuid_len)

  unfoldable pub dec_attr : (t : AttrType) → Bytes → Result (DiscAttr U t × ℕ)
  unfolding dec_svc_attr dec_incl_attr dec_chrc_attr dec_desc_attr
  dec_attr AttrType.service dat = dec_svc_attr dat
  dec_attr AttrType.include dat = dec_incl_attr dat
  dec_attr AttrType.characteristic dat = dec_chrc_attr dat
  dec_attr AttrType.descriptor dat = dec_desc_attr dat

  -- `for x in range(attr_cnt)`
  unfoldable pub dec_attrs : (t : AttrType) → ℕ → ℕ → Bytes → Result (List (DiscAttr U t))
  dec_attrs t zero offset attrs = ok []
  dec_attrs t (suc attr_cnt) offset attrs = do
    (attr, attr_len) ← dec_attr t (drop offset attrs)
    attrs_list ← dec_attrs t attr_cnt (offset + attr_len) attrs
    ok (attr ∷ attrs_list)

  -- 'B%ds': the count, and all that follows
  unfoldable pub dec_disc_rsp : (t : AttrType) → Bytes → Result (List (DiscAttr U t))
  unfolding dec_attrs
  dec_disc_rsp t [] = err struct_error
  dec_disc_rsp t (attr_cnt ∷ attrs) = dec_attrs t attr_cnt 0 attrs

abbrev keep_uuid : ℕ → Bytes → Result Bytes
keep_uuid uuid_len uuid = ok uuid

unfoldable pub gatt_dec_svc_attr : Bytes → Result (SvcAttr Bytes × ℕ)
unfolding dec_svc_attr
gatt_dec_svc_attr = dec_svc_attr keep_uuid

unfoldable pub gatt_dec_incl_attr : Bytes → Result (InclAttr Bytes × ℕ)
unfolding dec_incl_attr
gatt_dec_incl_attr = dec_incl_attr keep_uuid

unfoldable pub gatt_dec_chrc_attr : Bytes → Result (ChrcAttr Bytes × ℕ)
unfolding dec_chrc_attr
gatt_dec_chrc_attr = dec_chrc_attr keep_uuid

unfoldable pub gatt_dec_desc_attr : Bytes → Result (DescAttr Bytes × ℕ)
unfolding dec_desc_attr
gatt_dec_desc_attr = dec_desc_attr keep_uuid

unfoldable pub gatt_dec_disc_rsp : (t : AttrType) → Bytes → Result (List (DiscAttr Bytes t))
gatt_dec_disc_rsp t dat = dec_disc_rsp keep_uuid t dat

unfoldable pub gatt_cl_dec_svc_attr : Bytes → Result (SvcAttr Text × ℕ)
unfolding dec_svc_attr btp2uuid
gatt_cl_dec_svc_attr = dec_svc_attr btp2uuid

unfoldable pub gatt_cl_dec_incl_attr : Bytes → Result (InclAttr Text × ℕ)
unfolding dec_incl_attr btp2uuid
gatt_cl_dec_incl_attr = dec_incl_attr btp2uuid

unfoldable pub gatt_cl_dec_chrc_attr : Bytes → Result (ChrcAttr Text × ℕ)
unfolding dec_chrc_attr btp2uuid
gatt_cl_dec_chrc_attr = dec_chrc_attr btp2uuid

unfoldable pub gatt_cl_dec_desc_attr : Bytes → Result (DescAttr Text × ℕ)
unfolding dec_desc_attr btp2uuid
gatt_cl_dec_desc_attr = dec_desc_attr btp2uuid

unfoldable pub gatt_cl_dec_disc_rsp : (t : AttrType) → Bytes → Result (List (DiscAttr Text t))
gatt_cl_dec_disc_rsp t dat = dec_disc_rsp btp2uuid t dat

-- ATT response, length and value
unfoldable pub gatt_dec_read_rsp : Bytes → Result (ℕ × Bytes)
unfolding raw
gatt_dec_read_rsp dat = do
  (att_rsp, val_len) ← unpack_from b_h dat
  val ← unpack_from_at (raw val_len) dat 3
  ok (att_rsp, val)

-- `ord(data)`: TypeError unless there is one byte
unfoldable pub gatt_dec_write_rsp : Bytes → Result ℕ
gatt_dec_write_rsp (rsp ∷ []) = ok rsp
gatt_dec_write_rsp _ = err type_error
