-- ===== src/Worker.antt =====
-- `BTPWorker` of pybtp/btp_worker.py, with the tester's view of the device: the frames that were
-- sent, the frames that wait on the receive queue, and the stack.
pub mod Rx
use btptester_core.Prelude.{
  ℕ, zero, suc, ◌+◌, ◌/◌, ◌%◌, Bool, Option, none, some, List, [], ◌∷◌, ◌++◌, Bytes, Text, ltb, leb,
  ◌&&◌, true, false, String, ◌==◌, if◌then◌else◌,
}
use btptester_core.Result
use btptester_core.Result.{
  Result, ok, err, type_error, value_error, key_error, socket_timeout, btp_error,
  btp_error_invalid_service_id,
}
use btptester_core.Hex.{unhexlify}
use btptester_core.Parser.{Header, enc_frame}
use btptester_core.Dict
use btptester_core.Dict.{Dict, string_eq}
use btptester_core.Commands.Table.{Cmd, Payload, int, text, bytes}
use btptester_core.Defs.Core.{btp_status}
use btptester_core.Stack.{Stack}
use btptester_core.Exec.{Exec, pure, raise, lift, modify, ◌>>=◌, ◌>>◌}

-- `rx_queue` holds the frames in the order in which `read` will get them, those that the device
-- is still about to send included.
pub record World : Type 0 where
  pub stack : Stack
  pub sent : List Bytes
  pub rx_queue : List (Header × Bytes)

abbrev pub Btp : Type 0 → Type 0
Btp A = Exec World A

-- one code point in UTF-8; a surrogate has no encoding
unfoldable pub utf8 : ℕ → Result Bytes
utf8 c =
    if ltb c 0x80
    then ok (c ∷ [])
    else if ltb c 0x800
    then ok ((0xc0 + c / 64) ∷ (0x80 + c % 64) ∷ [])
    else if leb 0xd800 c && leb c 0xdfff
    then err value_error
    else if ltb c 0x10000
    then ok ((0xe0 + c / 4096) ∷ (0x80 + c / 64 % 64) ∷ (0x80 + c % 64) ∷ [])
    else ok
        ((0xf0 + c / 262144) ∷ (0x80 + c / 4096 % 64) ∷ (0x80 + c / 64 % 64) ∷ (0x80 + c % 64) ∷ [])

-- s.encode()
unfoldable pub encode : Text → Result Bytes
unfolding utf8
encode [] = ok []
encode (c ∷ s) = Result.◌>>=◌ (utf8 c) λ b. Result.◌>>=◌ (encode s) λ bs. ok (b ++ bs)

-- The bytes that `send` makes of its argument. A number below 10 becomes one byte; a longer one
-- stays a text, which hexlify refuses with a TypeError.
unfoldable pub data_bytes : Payload → Result Bytes
unfolding unhexlify encode
data_bytes (int n) = if ltb n 10 then unhexlify (b'0' ∷ (b'0' + n) ∷ []) else err type_error
data_bytes (text s) = encode s
data_bytes (bytes b) = ok b

-- An argument of a call: a number, what is to be sent, or the bytes of a frame.
pub data Arg : Type 0 where
  number : ℕ → Arg
  payload : Payload → Arg
  frame : Bytes → Arg

-- A call of BTPSocket.send(self, data): any number of arguments but one is a TypeError, and so is
-- a number; a text is refused by the socket below.
unfoldable pub socket_send : List Arg → Btp (Unit {0})
socket_send (frame b ∷ []) = modify (λ w. record w { sent = w.sent ++ b ∷ [] })
socket_send (payload (bytes b) ∷ []) = modify (λ w. record w { sent = w.sent ++ b ∷ [] })
socket_send args = raise type_error

-- send(svc_id, op, ctrl_index, data)
unfoldable pub send : ℕ → ℕ → ℕ → Payload → Btp (Unit {0})
unfolding socket_send
send svc_id op ctrl_index dat = do
  payload_ba ← lift (data_bytes dat)
  bin_data ← lift (enc_frame svc_id op ctrl_index payload_ba)
  socket_send (frame bin_data ∷ [])

-- `send(*TABLE[key], data=...)`, and `send(*TABLE[key])` where the table has the payload: a
-- payload that is given twice or not at all is a TypeError
abbrev one_payload : Option Payload → Option Payload → Result Payload
one_payload none (some p) = ok p
one_payload (some p) none = ok p
one_payload _ _ = err type_error

abbrev send_cmd : Option Cmd → Option Payload → Btp (Unit {0})
send_cmd none given = raise key_error
send_cmd (some (svc_id, op, ctrl_index, p)) given = do
  dat ← lift (one_payload p given)
  send svc_id op ctrl_index dat

unfoldable pub send_from : Dict String Cmd → String → Option Payload → Btp (Unit {0})
unfolding send Dict.get
send_from table key given = send_cmd (Dict.get table key) given

abbrev take_frame : List (Header × Bytes) → Btp (Header × Bytes)
take_frame [] w = (err socket_timeout, w)
take_frame (f ∷ later) w = (ok f, record w { rx_queue = later })

-- read(): the next frame of the queue, or socket.timeout if none comes in time
unfoldable pub read : Btp (Header × Bytes)
read w = take_frame w.rx_queue w

-- The callback of `send_wait_rsp`, with its user data: whether to wait for one more response.
abbrev pub RspCallback : Type 0
RspCallback = Bytes → Result Bool

-- `ret = cb(tuple_data, user_data)`: on to the next response, or None behind the loop
abbrev after_callback :
    Result Bool
    → Result (Option Bytes) × World
    → Result (Option Bytes) × World
    → Result (Option Bytes) × World
after_callback (err e) (_, w) next = (err e, w)
after_callback (ok true) done next = next
after_callback (ok false) done next = done

-- What a response is checked for, in the order of the tests.
unfoldable pub check_rsp : ℕ → ℕ → Header → Result (Unit {0})
check_rsp svc_id op hdr =
    if hdr.svc_id == svc_id
    then (if hdr.op == btp_status
        then err btp_error
        else if op == hdr.op
        then ok tt
        else err btp_error)
    else err btp_error

abbrev checked_rsp :
    Result (Unit {0}) → Result (Option Bytes) × World → World → Result (Option Bytes) × World
checked_rsp (err e) next w = (err e, w)
checked_rsp (ok done) next w = next

-- The loop of `send_wait_rsp` over the frames that `read` gets, one for each round.
unfoldable pub wait_rsps :
    ℕ → ℕ → Option RspCallback → List (Header × Bytes) → World → Result (Option Bytes) × World
unfolding check_rsp
wait_rsps svc_id op cb [] w = (err socket_timeout, record w { rx_queue = [] })
wait_rsps svc_id op cb ((tuple_hdr, tuple_data) ∷ later) w =
    let w' = record w { rx_queue = later } in
    let next = wait_rsps svc_id op cb later w in
    checked_rsp (check_rsp svc_id op tuple_hdr)
      (elim cb [
        | none ↦ (ok (some tuple_data), w')
        | some f ↦ after_callback (f tuple_data) (ok none, w') next
      ])
      w'

-- send_wait_rsp(svc_id, op, ctrl_index, data, cb, user_data): the socket's `send` is called with
-- four arguments
unfoldable pub send_wait_rsp_cb : ℕ → ℕ → ℕ → Payload → Option RspCallback → Btp (Option Bytes)
unfolding socket_send wait_rsps
send_wait_rsp_cb svc_id op ctrl_index dat cb = do
  socket_send (number svc_id ∷ number op ∷ number ctrl_index ∷ payload dat ∷ [])
  λ w. wait_rsps svc_id op cb w.rx_queue w

-- `send_wait_rsp(*TABLE[key], data=...)`, as for `send`; without a callback there is a response
abbrev rsp_of : Option Bytes → Result Bytes
rsp_of none = err type_error
rsp_of (some tuple_data) = ok tuple_data

abbrev send_wait_cmd : Option Cmd → Option Payload → Btp Bytes
send_wait_cmd none given = raise key_error
send_wait_cmd (some (svc_id, op, ctrl_index, p)) given = do
  dat ← lift (one_payload p given)
  rsp ← send_wait_rsp_cb svc_id op ctrl_index dat none
  lift (rsp_of rsp)

unfoldable pub send_wait_rsp : Dict String Cmd → String → Option Payload → Btp Bytes
unfolding send_wait_rsp_cb Dict.get
send_wait_rsp table key given = send_wait_cmd (Dict.get table key) given
