-- ===== src/Relay/Copy.antt =====
-- What the loops of src/relay.rs carry from one side to the other.
use smoltcp_socks.Common.{
  ℕ, ◌≤◌, ◌≡◌, ◌≢◌, refl, ap, sym, ◌∙◌, Bool, true, false, List, [], ◌∷◌, ◌++◌, Option, none, some,
  Bytes, length, drop, take-append-drop, length-drop, Result, ok, err, arith, All,
}
use smoltcp_socks.Netstack.Vconn.{VConnError}
use smoltcp_socks.Relay.{
  Outcome, done, waiting, failed, UpstreamOp, wrote, flush, shutdown, UpRound, UpOut, up_chunk,
  up_round, copy_vconn_to, DownRound, DownOut, write_out, down_chunk, down_round, copy_to_vconn,
}

abbrev pub written : List UpstreamOp → Bytes
written [] = []
written (wrote b ∷ ops) = b ++ written ops
written (flush ∷ ops) = written ops
written (shutdown ∷ ops) = written ops

abbrev read_bytes : Result Bytes VConnError → Bytes → Bytes
read_bytes (err e) later = []
read_bytes (ok []) later = []
read_bytes (ok (c ∷ b)) later = (c ∷ b) ++ later

-- The bytes that the client has sent, up to its end of stream or the first error.
abbrev pub sent_up : List UpRound → Bytes
sent_up [] = []
sent_up (r ∷ rounds) = read_bytes r.read (sent_up rounds)

abbrev pub IsKept : UpstreamOp → Type 0
IsKept o = o ≢ shutdown

up_round_keeps :
    (r : Result Bytes VConnError) (w : Bool) (rest : UpOut)
    → All IsKept rest.1
    → All IsKept (up_round r w rest).1
unfolding up_round up_chunk
up_round_keeps (err e) w rest h = tt
up_round_keeps (ok []) w rest h = (λ e. cc, tt)
up_round_keeps (ok (c ∷ b)) true (o, ops) h = (λ e. cc, h)
up_round_keeps (ok (c ∷ b)) false rest h = tt

-- The upward loop never shuts the upstream's write side down, however it ends: the server is not told
-- that the client has finished sending.
pub up_never_shuts : (rounds : List UpRound) → All IsKept (copy_vconn_to rounds).1
unfolding copy_vconn_to
up_never_shuts [] = tt
up_never_shuts (r ∷ rounds) =
    up_round_keeps r.read r.write_ok (copy_vconn_to rounds) (up_never_shuts rounds)

-- What is accepted of a slice is a first part of it, and the whole if the loop ends with success.
write_out_whole :
    (s : Bytes) (results : List (Result ℕ VConnError))
    → (write_out s results).0 ≡ done
    → (write_out s results).1 ≡ s
unfolding write_out
write_out_whole [] results h = refl
write_out_whole (c ∷ s) [] h = cc
write_out_whole (c ∷ s) (err e ∷ results) h = cc
write_out_whole (c ∷ s) (ok w ∷ results) h =
    ground (arith, write_out_whole (drop w (c ∷ s)) results, take-append-drop w (c ∷ s))

abbrev pub IsProgress : Result ℕ VConnError → Type 0
IsProgress (ok w) = 1 ≤ w
IsProgress (err e) = ⊥

-- The inner loop ends: as many writes as there are bytes suffice, if each one accepts a byte.
pub write_out_ends :
    (s : Bytes) (results : List (Result ℕ VConnError))
    → All IsProgress results
    → length s ≤ length results
    → write_out s results ≡ (done, s)
unfolding write_out
write_out_ends [] results h l = refl
write_out_ends (c ∷ s) [] h l = absurd (omega arith)
write_out_ends (c ∷ s) (err e ∷ results) h l = absurd h.0
write_out_ends (c ∷ s) (ok w ∷ results) h l = ground (
  arith,
  write_out_ends (drop w (c ∷ s)) results h.1 (omega (arith, length-drop w (c ∷ s), h.0)),
  take-append-drop w (c ∷ s),
)

abbrev source_bytes : Option Bytes → Bytes → Bytes
source_bytes none later = []
source_bytes (some []) later = []
source_bytes (some (c ∷ b)) later = (c ∷ b) ++ later

-- The bytes that the server has sent, up to its end of stream or an error.
abbrev pub sent_down : List DownRound → Bytes
sent_down [] = []
sent_down (r ∷ rounds) = source_bytes r.read (sent_down rounds)

-- A success is whole, and the half-close marks it.
abbrev Delivers : DownOut → Bytes → Type 0
Delivers o b =
    (o.outcome ≡ done → (o.accepted ≡ b) × (o.half_closed ≡ true))
    × (o.outcome ≢ done → o.half_closed ≡ false)

down_chunk-Delivers :
    (x : Outcome × Bytes) (b later : Bytes) (rest : DownOut)
    → (x.0 ≡ done → x.1 ≡ b)
    → Delivers rest later
    → Delivers (down_chunk x rest) (b ++ later)
unfolding down_chunk
down_chunk-Delivers (done, a) b later rest h ih =
    (λ e. (ap (λ x. x ++ rest.accepted) (h refl) ∙ ap (◌++◌ b) (ih.0 e).0, (ih.0 e).1), ih.1)
down_chunk-Delivers (waiting, a) b later rest h ih = (λ e. cc, λ e. refl)
down_chunk-Delivers (failed x, a) b later rest h ih = (λ e. cc, λ e. refl)

down_round-Delivers :
    (r : Option Bytes) (ws : List (Result ℕ VConnError)) (rest : DownOut) (later : Bytes)
    → Delivers rest later
    → Delivers (down_round r ws rest) (source_bytes r later)
unfolding down_round
down_round-Delivers none ws rest later ih = (λ e. cc, λ e. refl)
down_round-Delivers (some []) ws rest later ih = (λ e. (refl, refl), λ e. absurd (e refl))
down_round-Delivers (some (c ∷ b)) ws rest later ih =
    down_chunk-Delivers (write_out (c ∷ b) ws) (c ∷ b) later rest (write_out_whole (c ∷ b) ws) ih

copy_to_vconn-Delivers :
    (rounds : List DownRound) → Delivers (copy_to_vconn rounds) (sent_down rounds)
unfolding copy_to_vconn
copy_to_vconn-Delivers [] = (λ e. cc, λ e. refl)
copy_to_vconn-Delivers (r ∷ rounds) =
    down_round-Delivers r.read r.writes (copy_to_vconn rounds) (sent_down rounds)
      (copy_to_vconn-Delivers rounds)

-- A downward loop that has failed, or still waits, leaves the write side of the virtual connection
-- open.
pub down_leaves_open :
    (rounds : List DownRound)
    → (copy_to_vconn rounds).outcome ≢ done
    → (copy_to_vconn rounds).half_closed ≡ false
down_leaves_open rounds h = (copy_to_vconn-Delivers rounds).1 h

-- The upstream gave bytes, and each `write` took at least one of them until none was left.
abbrev pub IsWritten : DownRound → Type 0
IsWritten r =
    (c : ℕ) × (b : Bytes) × (r.read ≡ some (c ∷ b))
    × All IsProgress r.writes
    × (length (c ∷ b) ≤ length r.writes)

abbrev pub server_ends : List DownRound
server_ends = record { read = some []; writes = [] } ∷ []

-- The downward loop ends with success when the server does: if each `write` takes at least one byte and
-- there are as many as bytes, then after all rounds and the end of the stream, the virtual connection
-- has accepted all the bytes that the server sent, in order, and its write side has been closed.
pub down_completes :
    (rounds : List DownRound)
    → All IsWritten rounds
    → copy_to_vconn (rounds ++ server_ends)
      ≡ record { outcome = done; accepted = sent_down rounds; half_closed = true }
unfolding copy_to_vconn down_round down_chunk
down_completes [] h = refl
down_completes (r ∷ rounds) ((c, b, e, p, l), h) =
    let rest = copy_to_vconn (rounds ++ server_ends) in
    ap (λ read. down_round read r.writes rest) e
    ∙ ap (λ x. down_chunk x rest) (write_out_ends (c ∷ b) r.writes p l)
    ∙ ap (down_chunk (done, c ∷ b)) (down_completes rounds h)
    ∙ ap
        (λ read. record {
          outcome = done;
          accepted = source_bytes read (sent_down rounds);
          half_closed = true;
        })
        (sym e)

-- The client sent bytes, and the upstream took them.
abbrev pub IsCarried : UpRound → Type 0
IsCarried r = (c : ℕ) × (b : Bytes) × (r.read ≡ ok (c ∷ b)) × (r.write_ok ≡ true)

abbrev pub client_ends : List UpRound
client_ends = record { read = ok []; write_ok = true } ∷ []

-- The upward loop ends with success when the client does: if the upstream takes every write, then
-- after all rounds and the end of the stream, it was written all the bytes that the client sent, in
-- order.
pub up_completes :
    (rounds : List UpRound)
    → All IsCarried rounds
    → ((copy_vconn_to (rounds ++ client_ends)).0 ≡ done)
      × (written (copy_vconn_to (rounds ++ client_ends)).1 ≡ sent_up rounds)
unfolding copy_vconn_to up_round up_chunk
up_completes [] h = (refl, refl)
up_completes (r ∷ rounds) ((c, b, e, w), h) =
    let rest = copy_vconn_to (rounds ++ client_ends) in
    let (ends, carries) = up_completes rounds h in
    let step : copy_vconn_to (r ∷ (rounds ++ client_ends)) ≡ (rest.0, wrote (c ∷ b) ∷ rest.1) =
      (λ i. up_round (e i) (w i) rest) in
    (
      ap (λ (x : UpOut). x.0) step ∙ ends,
      ap (λ (x : UpOut). written x.1) step
          ∙ ap (◌++◌ (c ∷ b)) carries
          ∙ ap (λ read. read_bytes read (sent_up rounds)) (sym e),
    )
