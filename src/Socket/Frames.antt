-- ===== src/Socket/Frames.antt =====
-- What `read` gives the worker: whole frames, however the stream is cut.
use btptester_core.Prelude.{
  ℕ, zero, suc, ◌+◌, ◌≤◌, ◌<◌, ◌≡◌, ◌≢◌, refl, ap, sym, ◌∙◌, none, some, [], ◌∷◌, ◌++◌, Bytes, take,
  length, length-append, arith, take-length-append, drop-length-append, length-drop,
}
use native.Mathlib.Decide.{dec_lt}
use btptester_core.Result.{ok, err, socket_timeout}
use btptester_core.Parser.{Header, hdr_len, dec_hdr}
use btptester_core.Parser.RoundTrip.{frame, header, dec_data_lem, dec_hdr-frame}
use btptester_core.Socket.{Conn, gather, read_data, read}
use btptester_core.Socket.Gather.{stream, IsOpen, gather_enough, gather_short, gather_closed}

dec_hdr-frame-append :
    (s o c : ℕ) (p rest : Bytes)
    → dec_hdr (take hdr_len (frame s o c p ++ rest)) ≡ ok (header s o c p)
unfolding dec_hdr
dec_hdr-frame-append s o c p rest = ground arith

read_got_header :
    (fuel : ℕ) (hdr : Bytes) (h : Header) (conn conn' : Conn)
    → gather fuel hdr_len [] conn ≡ some (ok hdr, conn')
    → dec_hdr hdr ≡ ok h
    → read fuel conn ≡ read_data fuel (ok h) conn'
unfolding read
read_got_header fuel hdr h conn conn' run d = rw (run, read, d)

read_got_data :
    (fuel : ℕ) (h : Header) (p : Bytes) (conn conn' : Conn)
    → gather fuel h.data_len [] conn ≡ some (ok p, conn')
    → read_data fuel (ok h) conn ≡ some (ok (h, p), conn')
unfolding read_data
read_got_data fuel h p conn conn' run = rw (run, read_data, dec_data_lem p)

read_lost_header :
    (fuel : ℕ) (conn : Conn)
    → gather fuel hdr_len [] conn ≡ some (err socket_timeout, [])
    → read fuel conn ≡ some (err socket_timeout, [])
unfolding read
read_lost_header fuel conn run = rw (run, read)

read_lost_data :
    (fuel : ℕ) (h : Header) (conn : Conn)
    → gather fuel h.data_len [] conn ≡ some (err socket_timeout, [])
    → read_data fuel (ok h) conn ≡ some (err socket_timeout, [])
unfolding read_data
read_lost_data fuel h conn run = rw (run, read_data)

-- `read` once the header's five bytes are there
read-header :
    (fuel s o c : ℕ) (p rest : Bytes) (conn : Conn)
    → IsOpen conn
    → stream conn ≡ frame s o c p ++ rest
    → hdr_len < fuel
    → (conn' : Conn) × (read fuel conn ≡ read_data fuel (ok (header s o c p)) conn')
      × (stream conn' ≡ p ++ rest)
      × IsOpen conn'
read-header fuel s o c p rest conn live whole f =
    let (conn', run, later, live') =
      gather_enough fuel hdr_len [] conn live (rw whole (omega arith)) f in
    (
      conn',
      read_got_header fuel _ _ conn conn' run (rw whole (dec_hdr-frame-append s o c p rest)),
      later ∙ rw whole,
      live',
    )

-- On a connection that stays open, if the stream goes on with a frame whose length fits its
-- header, `read` returns the header and the payload of that frame, for every way to cut the
-- stream into chunks, and leaves exactly the bytes behind the frame. Fuel above the length of
-- each part is enough.
pub read-frame :
    (fuel s o c : ℕ) (p rest : Bytes) (conn : Conn)
    → IsOpen conn
    → stream conn ≡ frame s o c p ++ rest
    → hdr_len < fuel
    → length p < fuel
    → (conn' : Conn) × (read fuel conn ≡ some (ok (header s o c p, p), conn'))
      × (stream conn' ≡ rest)
      × IsOpen conn'
read-frame fuel s o c p rest conn live whole f g =
    let (mid, run, later, live') = read-header fuel s o c p rest conn live whole f in
    let (conn', run', later', live'') =
      gather_enough fuel (length p) [] mid live' (rw later (omega (arith, length-append p rest)))
        g in
    (
      conn',
      run
          ∙ read_got_data fuel _ p mid conn'
              (run' ∙ ap (λ z. some (ok z, conn')) (rw later (take-length-append p rest))),
      later' ∙ rw (later, drop-length-append p rest),
      live'',
    )

read_no_header :
    (fuel : ℕ) (conn : Conn)
    → IsOpen conn
    → length (stream conn) < hdr_len
    → hdr_len < fuel
    → read fuel conn ≡ some (err socket_timeout, [])
read_no_header fuel conn live few f =
    read_lost_header fuel conn (gather_short fuel hdr_len [] conn live few f)

read_no_data :
    (fuel s o c : ℕ) (p : Bytes) (conn : Conn)
    → IsOpen conn
    → take hdr_len (stream conn) ≡ take hdr_len (frame s o c p)
    → length (stream conn) < 5 + length p
    → hdr_len ≤ length (stream conn)
    → hdr_len < fuel
    → length p < fuel
    → read fuel conn ≡ some (err socket_timeout, [])
read_no_data fuel s o c p conn live same few many f g =
    let (mid, run, later, live') = gather_enough fuel hdr_len [] conn live many f in
    read_got_header fuel _ (header s o c p) conn mid run (rw same (dec_hdr-frame s o c p))
    ∙ read_lost_data fuel (header s o c p) mid
        (gather_short fuel (length p) [] mid live' (rw (later, length-drop) (omega arith)) g)

take_prefix : (n : ℕ) (a b : Bytes) → n ≤ length a → take n (a ++ b) ≡ take n a
take_prefix zero a b h = refl
take_prefix (suc n) [] b h = absurd (omega arith)
take_prefix (suc n) (x ∷ a) b h = ap (◌∷◌ x) (take_prefix n a b (omega arith))

nonempty : (xs : Bytes) → xs ≢ [] → 0 < length xs
nonempty [] h = absurd (h refl)
nonempty (x ∷ xs) h = omega arith

-- If only a proper part of a frame comes before the timeout, `read` raises socket.timeout and
-- has consumed that part: nothing of it is left for the next call.
pub read_timeout_drops :
    (fuel s o c : ℕ) (p part missing : Bytes) (conn : Conn)
    → IsOpen conn
    → stream conn ≡ part
    → frame s o c p ≡ part ++ missing
    → missing ≢ []
    → hdr_len < fuel
    → length p < fuel
    → read fuel conn ≡ some (err socket_timeout, [])
read_timeout_drops fuel s o c p part missing conn live e whole left f g =
    elim (dec_lt (length part) hdr_len) [
      | yes short ↦ read_no_header fuel conn live (rw e short) f
      | no long ↦
          read_no_data fuel s o c p conn live
            (ap (take hdr_len) e
              ∙ sym (ap (take hdr_len) whole ∙ take_prefix hdr_len part missing (omega arith)))
            (rw e (omega (arith, lengths, nonempty missing left))) (rw e (omega arith)) f g
    ]
  where
    lengths : length part + length missing ≡ 5 + length p
    lengths = omega (arith, length-append part missing, ap length whole)

-- When the peer closes the connection before a frame, `read` never returns, whatever the fuel.
pub read_closed_spins : (fuel : ℕ) → read fuel ([] ∷ []) ≡ none
unfolding read
read_closed_spins fuel = rw (gather_closed fuel 4 [] [], read)
