-- ===== src/Relay/Downstream.antt =====
-- The downward loop of src/relay.rs over the actor of src/netstack/actor.rs: the answers to its writes
-- are those of `ConnState`, over the connection's socket.
use smoltcp_socks.Common.{
  ℕ, ◌≡◌, inl, inr, ap, sym, ◌∙◌, ◌==◌, if◌then◌else◌, Bool, true, false, List, [], ◌∷◌, ◌++◌,
  Option, none, some, Bytes, take, drop, Result, ok, err, arith, All, append_assoc, append-nil,
}
use smoltcp_socks.Netstack.Vconn.{VConnError}
use smoltcp_socks.Netstack.Socket.{Tcp, TcpLaws}
use smoltcp_socks.Netstack.Conn.{Event, write_reply, serve_write}
use smoltcp_socks.Netstack.Conn.Writes.{WriteStep, serve_write-WriteStep, waits}
use smoltcp_socks.Relay.{
  Outcome, done, waiting, failed, DownRound, DownOut, write_out, down_chunk, down_round,
  copy_to_vconn,
}

abbrev pub write_answer : List Event → Option (Result ℕ VConnError)
write_answer (write_reply i r ∷ l) = some r
write_answer _ = none

abbrev pub is_done : Outcome → Bool
is_done done = true
is_done waiting = false
is_done (failed e) = false

abbrev pub slice_of : Option Bytes → Bytes
slice_of none = []
slice_of (some b) = b

module _ (t : Tcp) where
  abbrev pub Answers : Type 0
  Answers = List (Result ℕ VConnError) × t.Socket

  abbrev pub after_answer :
      Option (Result ℕ VConnError) → t.Socket → Answers → (ℕ → Answers) → Answers
  after_answer none s pending next = pending
  after_answer (some (err e)) s pending next = (err e ∷ [], s)
  after_answer (some (ok n)) s pending next =
      if n == 0 then (ok 0 ∷ [], s) else (ok n ∷ (next n).0, (next n).1)

  -- The answers to the writes of one slice. The actor serves the pending write, then smoltcp's polls
  -- change the socket, and so on; the relay writes what is left of the slice until nothing is, or a
  -- write fails or accepts nothing.
  unfoldable pub answers : List (t.Socket → t.Socket) → Bytes → t.Socket → Answers
  unfolding serve_write
  answers polls [] s = ([], s)
  answers [] (c ∷ b) s = ([], s)
  answers (poll ∷ polls) (c ∷ b) s =
      let (w, s', l) = serve_write t waits (some (record { body = c ∷ b; reply = 0 })) s in
      after_answer (write_answer l) s' (answers polls (c ∷ b) (poll s'))
        (λ n. answers polls (drop n (c ∷ b)) (poll s'))

  -- What the server sends next, and smoltcp's polls while it is written.
  pub record Chunk : Type 0 where
    pub read : Option Bytes
    pub polls : List (t.Socket → t.Socket)

  -- The loop goes on when a chunk was not empty and has been written.
  abbrev pub stop_at : Bytes → Outcome → t.Socket → t.Socket → t.Socket
  stop_at [] o here later = here
  stop_at (c ∷ b) o here later = if is_done o then later else here

  -- The rounds of the downward loop, and the socket where it stops.
  unfoldable pub relayed_down : List Chunk → t.Socket → List DownRound × t.Socket
  unfolding answers write_out
  relayed_down [] s = ([], s)
  relayed_down (k ∷ ks) s =
      let a = answers k.polls (slice_of k.read) s in
      let rest = relayed_down ks a.1 in
      (
        record { read = k.read; writes = a.0 } ∷ rest.0,
        stop_at (slice_of k.read) (write_out (slice_of k.read) a.0).0 a.1 rest.1,
      )

  -- Whatever smoltcp does with a socket, it takes no bytes for sending on its own.
  abbrev pub IsPoll : (t.Socket → t.Socket) → Type 0
  IsPoll poll = (s : t.Socket) → t.queued (poll s) ≡ t.queued s

  abbrev pub IsChunk : Chunk → Type 0
  IsChunk k = All IsPoll k.polls

module _ (t : Tcp) (laws : TcpLaws t) where
  -- What the socket has queued is what the relay's inner loop has had accepted.
  abbrev Accepts : t.Socket → Bytes → Answers t → Type 0
  Accepts s b a = t.queued a.1 ≡ t.queued s ++ (write_out b a.0).1

  taken :
      (n c : ℕ) (b : Bytes) (s s' : t.Socket) (next : Answers t)
      → t.queued s' ≡ t.queued s ++ take n (c ∷ b)
      → Accepts s' (drop n (c ∷ b)) next
      → Accepts s (c ∷ b) (after_answer t (some (ok n)) s' next (λ m. next))
  unfolding write_out
  taken n c b s s' next q ih = ground (
    arith,
    q,
    ih,
    append_assoc (t.queued s) (take n (c ∷ b)) (write_out (drop n (c ∷ b)) next.0).1,
    append-nil (t.queued s),
  )

  polled :
      (poll : t.Socket → t.Socket) (s : t.Socket) (b : Bytes) (a : Answers t)
      → IsPoll t poll
      → Accepts (poll s) b a
      → Accepts s b a
  polled poll s b a still e = e ∙ ap (λ q. q ++ (write_out b a.0).1) (still s)

  answers-Accepts :
      (polls : List (t.Socket → t.Socket)) (b : Bytes) (s : t.Socket)
      → All (IsPoll t) polls
      → Accepts s b (answers t polls b s)
  unfolding answers write_out WriteStep
  answers-Accepts polls [] s h = sym (append-nil (t.queued s))
  answers-Accepts [] (c ∷ b) s h = sym (append-nil (t.queued s))
  answers-Accepts (poll ∷ polls) (c ∷ b) s h = elim (serve_write-WriteStep t laws c 0 b s) [
    | inl e ↦ rw e (
        polled poll s (c ∷ b) (answers t polls (c ∷ b) (poll s)) h.0
          (answers-Accepts polls (c ∷ b) (poll s) h.1))
    | inr (inl (n, s', e, q, _)) ↦ rw e (
        taken n c b s s' (answers t polls (drop n (c ∷ b)) (poll s')) q (
          polled poll s' (drop n (c ∷ b)) (answers t polls (drop n (c ∷ b)) (poll s')) h.0
            (answers-Accepts polls (drop n (c ∷ b)) (poll s') h.1)))
    | inr (inr (s', e, q)) ↦ rw e (q ∙ sym (append-nil (t.queued s)))
  ]

  chunk_queues :
      (x : Outcome × Bytes) (s here later : t.Socket) (rest : DownOut)
      → t.queued here ≡ t.queued s ++ x.1
      → t.queued later ≡ t.queued here ++ rest.accepted
      → t.queued (if is_done x.0 then later else here) ≡ t.queued s ++ (down_chunk x rest).accepted
  unfolding down_chunk
  chunk_queues (done, b) s here later rest p q =
      q ∙ ap (λ z. z ++ rest.accepted) p ∙ append_assoc (t.queued s) b rest.accepted
  chunk_queues (waiting, b) s here later rest p q = p
  chunk_queues (failed e, b) s here later rest p q = p

  round_queues :
      (r : Option Bytes) (ws : List (Result ℕ VConnError)) (s here later : t.Socket)
      (rest : DownOut)
      → t.queued here ≡ t.queued s ++ (write_out (slice_of r) ws).1
      → t.queued later ≡ t.queued here ++ rest.accepted
      → t.queued (stop_at t (slice_of r) (write_out (slice_of r) ws).0 here later)
        ≡ t.queued s ++ (down_round r ws rest).accepted
  unfolding down_round write_out
  round_queues none ws s here later rest p q = p
  round_queues (some []) ws s here later rest p q = p
  round_queues (some (c ∷ b)) ws s here later rest p q =
      chunk_queues (write_out (c ∷ b) ws) s here later rest p q

  -- The downward relay of a connection over the actor, whatever smoltcp does in between and wherever it
  -- stops: the socket has queued for the client exactly the bytes that the loop has had accepted, in
  -- their order, none lost and none twice.
  pub relayed_down_queues :
      (ks : List (Chunk t)) (s : t.Socket)
      → All (IsChunk t) ks
      → t.queued (relayed_down t ks s).1
        ≡ t.queued s ++ (copy_to_vconn (relayed_down t ks s).0).accepted
  unfolding relayed_down copy_to_vconn
  relayed_down_queues [] s h = sym (append-nil (t.queued s))
  relayed_down_queues (k ∷ ks) s h =
      let a = answers t k.polls (slice_of k.read) s in
      let rest = relayed_down t ks a.1 in
      round_queues k.read a.0 s a.1 rest.1 (copy_to_vconn rest.0)
        (answers-Accepts k.polls (slice_of k.read) s h.0) (relayed_down_queues ks a.1 h.1)
