-- ===== src/Relay/Steady.antt =====
-- The downward loop of src/relay.rs over the actor never meets a write of nothing.
use smoltcp_socks.Common.{
  ℕ, ◌≤◌, ◌≢◌, inl, inr, List, [], ◌∷◌, Option, none, some, Bytes, drop, Result, ok, arith,
}
use smoltcp_socks.Netstack.Vconn.{VConnError}
use smoltcp_socks.Netstack.Socket.{Tcp, TcpLaws}
use smoltcp_socks.Netstack.Conn.Writes.{WriteStep, serve_write-WriteStep}
use smoltcp_socks.Relay.{
  Outcome, done, waiting, failed, zero_write, DownOut, write_out, down_chunk, down_round,
  copy_to_vconn,
}
use smoltcp_socks.Relay.Downstream.{Answers, after_answer, answers, slice_of, Chunk, relayed_down}

-- Not the error of a write that accepts nothing.
abbrev IsSteady : Outcome → Type 0
IsSteady o = o ≢ failed zero_write

module _ (t : Tcp) (laws : TcpLaws t) where
  after_answer-IsSteady :
      (n c : ℕ) (b : Bytes) (s : t.Socket) (next : Answers t)
      → 1 ≤ n
      → IsSteady (write_out (drop n (c ∷ b)) next.0).0
      → IsSteady (write_out (c ∷ b) (after_answer t (some (ok n)) s next (λ m. next)).0).0
  unfolding write_out
  after_answer-IsSteady n c b s next p h = ground (arith, h)

  answers-IsSteady :
      (polls : List (t.Socket → t.Socket)) (b : Bytes) (s : t.Socket)
      → IsSteady (write_out b (answers t polls b s).0).0
  unfolding answers write_out WriteStep
  answers-IsSteady polls [] s = λ e. cc
  answers-IsSteady [] (c ∷ b) s = λ e. cc
  answers-IsSteady (poll ∷ polls) (c ∷ b) s = elim (serve_write-WriteStep t laws c 0 b s) [
    | inl e ↦ rw e (answers-IsSteady polls (c ∷ b) (poll s))
    | inr (inl (n, s', e, _, p)) ↦ rw e (
        after_answer-IsSteady n c b s' (answers t polls (drop n (c ∷ b)) (poll s')) p
          (answers-IsSteady polls (drop n (c ∷ b)) (poll s')))
    | inr (inr (s', e, _)) ↦ rw e (λ f. cc)
  ]

  down_chunk-IsSteady :
      (x : Outcome × Bytes) (rest : DownOut)
      → IsSteady x.0
      → IsSteady rest.outcome
      → IsSteady (down_chunk x rest).outcome
  unfolding down_chunk
  down_chunk-IsSteady (done, b) rest p q = q
  down_chunk-IsSteady (waiting, b) rest p q = p
  down_chunk-IsSteady (failed e, b) rest p q = p

  down_round-IsSteady :
      (r : Option Bytes) (ws : List (Result ℕ VConnError)) (rest : DownOut)
      → IsSteady (write_out (slice_of r) ws).0
      → IsSteady rest.outcome
      → IsSteady (down_round r ws rest).outcome
  unfolding down_round write_out
  down_round-IsSteady none ws rest p q = λ e. cc
  down_round-IsSteady (some []) ws rest p q = λ e. cc
  down_round-IsSteady (some (c ∷ b)) ws rest p q =
      down_chunk-IsSteady (write_out (c ∷ b) ws) rest p q

  -- Over the actor, the downward relay of a connection never fails for a write that accepts nothing.
  pub relayed_down-IsSteady :
      (ks : List (Chunk t)) (s : t.Socket)
      → (copy_to_vconn (relayed_down t ks s).0).outcome ≢ failed zero_write
  unfolding relayed_down copy_to_vconn
  relayed_down-IsSteady [] s = λ e. cc
  relayed_down-IsSteady (k ∷ ks) s =
      let a = answers t k.polls (slice_of k.read) s in
      down_round-IsSteady k.read a.0 (copy_to_vconn (relayed_down t ks a.1).0)
        (answers-IsSteady k.polls (slice_of k.read) s) (relayed_down-IsSteady ks a.1)
