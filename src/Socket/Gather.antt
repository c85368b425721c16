-- ===== src/Socket/Gather.antt =====
-- The receive loop: it ends, and returns the bytes of the stream however they are cut.
use btptester_core.Prelude.{
  ℕ, zero, suc, ◌+◌, ◌-◌, ◌≤◌, ◌<◌, ◌≡◌, refl, ap, sym, ◌∙◌, none, some, [], ◌∷◌, ◌++◌,
  append_assoc, append-nil, Bytes, All, take, drop, length, length-append, arith, take-append-drop,
}
use native.Mathlib.Nat.{sub-zero, suc-sub-suc}
use btptester_core.Result.{ok, err, socket_timeout}
use btptester_core.Socket.{Conn, push_back, gather}

-- The bytes that a connection will deliver.
abbrev pub stream : Conn → Bytes
stream [] = []
stream (c ∷ conn) = c ++ stream conn

-- The peer stays connected: no receive returns nothing.
abbrev pub IsOpen : Conn → Type 0
IsOpen = All (λ c. 0 < length c)

push_back-IsOpen : (c : Bytes) (conn : Conn) → IsOpen conn → IsOpen (push_back c conn)
push_back-IsOpen [] conn h = h
push_back-IsOpen (b ∷ c) conn h = (omega arith, h)

stream-push_back : (c : Bytes) (conn : Conn) → stream (push_back c conn) ≡ c ++ stream conn
stream-push_back [] conn = refl
stream-push_back (b ∷ c) conn = refl

-- What one receive takes and what it leaves, put together again.
take_cut :
    (n : ℕ) (c t : Bytes)
    → take n c ++ take (n - length (take n c)) (drop n c ++ t) ≡ take n (c ++ t)
take_cut zero c t = refl
take_cut (suc n) [] t = rw sub-zero
take_cut (suc n) (x ∷ c) t = rw (suc-sub-suc, take_cut n c t)

drop_cut : (n : ℕ) (c t : Bytes) → drop (n - length (take n c)) (drop n c ++ t) ≡ drop n (c ++ t)
drop_cut zero c t = refl
drop_cut (suc n) [] t = rw sub-zero
drop_cut (suc n) (x ∷ c) t = rw suc-sub-suc (drop_cut n c t)

length-take-drop : (n : ℕ) (c : Bytes) → length (take n c) + length (drop n c) ≡ length c
length-take-drop n c = sym (length-append (take n c) (drop n c)) ∙ ap length (take-append-drop n c)

enough_left :
    (k b : ℕ) (c : Bytes) (conn : Conn)
    → suc k ≤ length (stream ((b ∷ c) ∷ conn))
    → suc k - suc (length (take k c)) ≤ length (stream (push_back (drop k c) conn))
enough_left k b c conn e =
    rw (stream-push_back, length-append)
      (omega (arith, length-append c (stream conn), length-take-drop k c))

few_left :
    (k b : ℕ) (c : Bytes) (conn : Conn)
    → length (stream ((b ∷ c) ∷ conn)) < suc k
    → length (stream (push_back (drop k c) conn)) < suc k - suc (length (take k c))
few_left k b c conn e =
    rw (stream-push_back, length-append)
      (omega (arith, length-append c (stream conn), length-take-drop k c))

-- On an open connection with enough bytes the loop ends: it has read the next n bytes of the
-- stream, and the rest of the stream is still to come.
pub gather_enough :
    (fuel n : ℕ) (got : Bytes) (conn : Conn)
    → IsOpen conn
    → n ≤ length (stream conn)
    → n < fuel
    → (conn' : Conn) × (gather fuel n got conn ≡ some (ok (got ++ take n (stream conn)), conn'))
      × (stream conn' ≡ drop n (stream conn))
      × IsOpen conn'
unfolding gather
gather_enough zero n got conn o e f = absurd (omega arith)
gather_enough (suc fuel) zero got conn o e f = (conn, rw append-nil, refl, o)
gather_enough (suc fuel) (suc k) got [] o e f = absurd (omega arith)
gather_enough (suc fuel) (suc k) got ([] ∷ conn) o e f = absurd (omega arith)
gather_enough (suc fuel) (suc k) got ((b ∷ c) ∷ conn) o e f =
    let left = push_back (drop k c) conn in
    let (conn', run, later, o') =
      gather_enough fuel (suc k - suc (length (take k c))) (got ++ (b ∷ take k c)) left
        (push_back-IsOpen (drop k c) conn o.1) (enough_left k b c conn e) (omega arith) in
    (
      conn',
      run
          ∙ ap (λ z. some (ok z, conn'))
              (append_assoc got _ _
                ∙ ap (◌++◌ got) (rw stream-push_back (take_cut (suc k) (b ∷ c) (stream conn)))),
      later ∙ rw stream-push_back (drop_cut (suc k) (b ∷ c) (stream conn)),
      o',
    )

-- If the bytes that come are too few, the loop takes them all and then runs into the timeout.
pub gather_short :
    (fuel n : ℕ) (got : Bytes) (conn : Conn)
    → IsOpen conn
    → length (stream conn) < n
    → n < fuel
    → gather fuel n got conn ≡ some (err socket_timeout, [])
unfolding gather
gather_short zero n got conn o e f = absurd (omega arith)
gather_short (suc fuel) zero got conn o e f = absurd (omega arith)
gather_short (suc fuel) (suc k) got [] o e f = refl
gather_short (suc fuel) (suc k) got ([] ∷ conn) o e f = absurd (omega arith)
gather_short (suc fuel) (suc k) got ((b ∷ c) ∷ conn) o e f =
    gather_short fuel (suc k - suc (length (take k c))) (got ++ (b ∷ take k c))
      (push_back (drop k c) conn) (push_back-IsOpen (drop k c) conn o.1) (few_left k b c conn e)
      (omega arith)

-- Once the peer has closed, a loop that still wants a byte never ends.
pub gather_closed :
    (fuel k : ℕ) (got : Bytes) (conn : Conn) → gather fuel (suc k) got ([] ∷ conn) ≡ none
unfolding gather
gather_closed zero k got conn = refl
gather_closed (suc fuel) k got conn = rw sub-zero (gather_closed fuel k (got ++ []) conn)
