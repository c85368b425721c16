-- ===== src/Socket.antt =====
-- `BTPSocket.read` of pybtp/btp_socket.py over a stream socket.
-- The peer and the kernel choose how the stream is cut: a connection is the list of the chunks
-- that `recv_into` will find, and an empty chunk is the end of the stream. After the last chunk
-- nothing comes, so a receive runs into the socket's timeout.
pub mod Gather
pub mod Frames
use btptester_core.Prelude.{
  ℕ, zero, suc, ◌-◌, ◌+◌, Option, none, some, List, [], ◌∷◌, ◌++◌, Bytes, take, drop, length,
}
use btptester_core.Result.{Result, ok, err, socket_timeout}
use btptester_core.Parser.{Header, hdr_len, dec_hdr, dec_data}

abbrev pub Conn : Type 0
Conn = List Bytes

-- what is left of a chunk waits for the next receive
abbrev push_back : Bytes → Conn → Conn
push_back [] conn = conn
push_back (b ∷ c) conn = (b ∷ c) ∷ conn

-- `recv_into(view, n)` for 0 < n: at most n bytes of the next chunk, and none once the peer has
-- closed, again and again
unfoldable pub recv_into : ℕ → Conn → Result Bytes × Conn
recv_into n [] = (err socket_timeout, [])
recv_into n ([] ∷ conn) = (ok [], [] ∷ conn)
recv_into n ((b ∷ c) ∷ conn) = (ok (take n (b ∷ c)), push_back (drop n (b ∷ c)) conn)

-- `while toread: ...`, one round for each unit of fuel; `none` if the fuel runs out. `got` is
-- what the buffer holds so far.
unfoldable pub gather : ℕ → ℕ → Bytes → Conn → Option (Result Bytes × Conn)
unfolding recv_into
gather zero toread got conn = none
gather (suc fuel) zero got conn = some (ok got, conn)
gather (suc fuel) (suc k) got conn =
    let (r, conn') = recv_into (suc k) conn in
    elim r [
      | ok new ↦ gather fuel (suc k - length new) (got ++ new) conn'
      | err e ↦ some (err e, conn')
    ]

-- the second loop of `read`, once the header is there
unfoldable pub read_data : ℕ → Result Header → Conn → Option (Result (Header × Bytes) × Conn)
read_data fuel (err e) conn = some (err e, conn)
read_data fuel (ok tuple_hdr) conn = elim (gather fuel tuple_hdr.data_len [] conn) [
  | none ↦ none
  | some (err e, conn') ↦ some (err e, conn')
  | some (ok dat, conn') ↦ elim (dec_data dat) [
    | ok tuple_data ↦ some (ok (tuple_hdr, tuple_data), conn')
    | err e ↦ some (err e, conn')
  ]
]

-- `read`: the header, then as many bytes as it announces
unfoldable pub read : ℕ → Conn → Option (Result (Header × Bytes) × Conn)
read fuel conn = elim (gather fuel hdr_len [] conn) [
  | none ↦ none
  | some (err e, conn') ↦ some (err e, conn')
  | some (ok hdr, conn') ↦ read_data fuel (dec_hdr hdr) conn'
]
