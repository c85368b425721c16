-- ===== src/Commands/Handles.antt =====
-- Handles that are given as texts of digits to the commands of pybtp/btp.py.
use btptester_core.Prelude.{
  ℕ, ◌≡◌, ◌<◌, ◌/◌, ◌%◌, ◌∙◌, ap, refl, fun_ext, Option, none, some, List, [], ◌∷◌, Text, arith,
  ◌*◌, ◌+◌,
}
use btptester_core.Result.{ok}
use btptester_core.Hex.{digit_value, hex_digit, upper_char}
use btptester_core.Address.{BleAddress}
use btptester_core.GattDb.Handles.{Handle, num, hex, hdl_hex}
use btptester_core.GattDb.Numbers.{digit, hdl_hex-digits}
use btptester_core.Worker.{Btp}
use btptester_core.Commands.Gatts.{gatts_set_val, gatts_set_enc_key_size}
use btptester_core.Commands.Gattc.{
  gattc_find_included, gattc_disc_all_chrc, gattc_disc_chrc_uuid, gattc_disc_all_desc,
  gattc_cfg_notify, gattc_cfg_indicate, opt_int, range_ba, cfg_ba, search_range,
}
use btptester_core.Commands.Gattc.Values.{
  gattc_read, gattc_read_long, gattc_write_without_rsp, gattc_signed_write, gattc_write,
  gattc_write_long, write_ba,
}
use btptester_core.Commands.GattCl.{
  gatt_cl_find_included, gatt_cl_disc_all_chrc, gatt_cl_disc_chrc_uuid, gatt_cl_disc_all_desc,
  gatt_cl_cfg_notify, gatt_cl_cfg_indicate, end_first_ba, ccc_ba,
}
use btptester_core.Commands.GattCl.Values.{
  gatt_cl_read, gatt_cl_read_long, gatt_cl_write, gatt_cl_write_long,
}
use btptester_core.Commands.L2cap.{l2cap_conn, l2cap_listen}
use btptester_core.Commands.Args.{Val, hdl_int, hdl_ba, int_16, hex_value}

digit_value-digit : (d : ℕ) → d < 16 → digit_value (digit d) ≡ ok d
unfolding digit digit_value upper_char hex_digit
digit_value-digit d h = ground arith

digit-no_x : (d : ℕ) → d < 16 → digit d < 71
unfolding digit upper_char hex_digit
digit-no_x d h = ground arith

int_16-digits :
    (a b c d : ℕ)
    → a < 16
    → b < 16
    → c < 16
    → d < 16
    → int_16 (digit a ∷ digit b ∷ digit c ∷ digit d ∷ []) ≡ ok (a * 4096 + b * 256 + c * 16 + d)
unfolding int_16 hex_value
int_16-digits a b c d ha hb hc hd = ground (
  arith,
  digit_value-digit a ha,
  digit_value-digit b hb,
  digit_value-digit c hc,
  digit_value-digit d hd,
  digit-no_x b hb,
)

-- "%04X" % h is read back by int(…, 16).
pub hdl_int-hdl_hex : (h : ℕ) → h < 65536 → hdl_int (hex (hdl_hex h)) ≡ ok h
unfolding hdl_int
hdl_int-hdl_hex h l =
    ap int_16 (hdl_hex-digits h l)
    ∙ int_16-digits (h / 4096) (h / 256 % 16) (h / 16 % 16) (h % 16) (omega arith) (omega arith)
        (omega arith) (omega arith)
    ∙ ap ok (omega arith)

hdl_int-num : (h : ℕ) → hdl_int (num h) ≡ ok h
unfolding hdl_int
hdl_int-num h = refl

disc_all_chrc-hdl_hex :
    (bd_addr : BleAddress) (h k : ℕ)
    → h < 65536
    → k < 65536
    → gattc_disc_all_chrc bd_addr (hex (hdl_hex h)) (hex (hdl_hex k)) none
      ≡ gattc_disc_all_chrc bd_addr (num h) (num k) none
unfolding gattc_disc_all_chrc search_range range_ba
disc_all_chrc-hdl_hex bd_addr h k lh lk =
    fun_ext
      λ w. ground (arith, hdl_int-hdl_hex h lh, hdl_int-hdl_hex k lk, hdl_int-num h, hdl_int-num k)

-- The commands that take handles or offsets, each with the same other arguments.
abbrev pub handle_commands :
    BleAddress → Handle → Handle → ℕ → Val → Option ℕ → Text → List (Btp (Unit {0}))
handle_commands bd_addr h k n val mtp uuid =
    gattc_find_included bd_addr h (some k)
    ∷ gattc_disc_all_chrc bd_addr h k none
    ∷ gattc_disc_chrc_uuid bd_addr h k uuid
    ∷ gattc_disc_all_desc bd_addr h k
    ∷ gattc_read bd_addr h
    ∷ gattc_read_long bd_addr h k mtp
    ∷ gattc_write_without_rsp bd_addr h val mtp
    ∷ gattc_signed_write bd_addr h val mtp
    ∷ gattc_write bd_addr h val mtp
    ∷ gattc_write_long bd_addr h k val mtp
    ∷ gattc_cfg_notify bd_addr n h
    ∷ gattc_cfg_indicate bd_addr n h
    ∷ gatt_cl_find_included bd_addr h k
    ∷ gatt_cl_disc_all_chrc bd_addr h k none
    ∷ gatt_cl_disc_chrc_uuid bd_addr h k uuid
    ∷ gatt_cl_disc_all_desc bd_addr h k
    ∷ gatt_cl_read bd_addr h
    ∷ gatt_cl_read_long bd_addr h k mtp
    ∷ gatt_cl_write bd_addr h val mtp
    ∷ gatt_cl_write_long bd_addr h k val mtp
    ∷ gatt_cl_cfg_notify bd_addr n h
    ∷ gatt_cl_cfg_indicate bd_addr n h
    ∷ gatts_set_val h val
    ∷ gatts_set_enc_key_size h n
    ∷ l2cap_conn bd_addr h
    ∷ l2cap_listen h n
    ∷ []

-- Each of these commands does the same for 16-bit handles given as texts of four upper-case
-- digits and as numbers: it sends the same frame, or raises the same exception.
pub handle_commands-hdl_hex :
    (bd_addr : BleAddress) (h k n : ℕ) (val : Val) (mtp : Option ℕ) (uuid : Text)
    → h < 65536
    → k < 65536
    → handle_commands bd_addr (hex (hdl_hex h)) (hex (hdl_hex k)) n val mtp uuid
      ≡ handle_commands bd_addr (num h) (num k) n val mtp uuid
unfolding hdl_ba opt_int range_ba cfg_ba write_ba end_first_ba ccc_ba gattc_find_included
    gattc_disc_chrc_uuid gattc_disc_all_desc gattc_cfg_notify gattc_cfg_indicate gattc_read
    gattc_read_long gattc_write_without_rsp gattc_signed_write gattc_write gattc_write_long
    gatt_cl_find_included gatt_cl_disc_all_chrc gatt_cl_disc_chrc_uuid gatt_cl_disc_all_desc
    gatt_cl_cfg_notify gatt_cl_cfg_indicate gatt_cl_read gatt_cl_read_long gatt_cl_write
    gatt_cl_write_long gatts_set_val gatts_set_enc_key_size l2cap_conn l2cap_listen
handle_commands-hdl_hex bd_addr h k n val mtp uuid lh lk =
    rw
      (
        disc_all_chrc-hdl_hex bd_addr h k lh lk,
        hdl_int-hdl_hex h lh,
        hdl_int-hdl_hex k lk,
        hdl_int-num h,
        hdl_int-num k,
      )
      refl
