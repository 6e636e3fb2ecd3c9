-- ===== src/Relay/Session/Partial.antt =====
-- The loops of `copy_to_vconn` of src/relay.rs, stopped after some of their rounds.
use smoltcp_socks.Common.{
  ℕ, ◌≡◌, ◌≢◌, refl, ap, sym, ◌∙◌, Bool, true, false, List, [], ◌∷◌, ◌++◌, Bytes, some, Result, ok,
  err, append_assoc, append-nil, take, drop, ◌==◌, if◌then◌else◌, All,
}
use smoltcp_socks.Netstack.Vconn.{VConnError}
use smoltcp_socks.Relay.{
  Outcome, done, waiting, failed, vconn, zero_write, DownRound, DownOut, write_out, down_chunk,
  down_round, copy_to_vconn,
}

-- `writes` have left `slice` of the buffer, and what later calls do to it the inner loop does.
pub record IsPartial (buf : Bytes) (writes : List (Result ℕ VConnError)) (slice : Bytes)
    : Type 0 where
  pub more : slice ≢ []
  pub goes_on :
      (l : List (Result ℕ VConnError))
      → write_out buf (writes ++ l)
        ≡ ((write_out slice l).0, (write_out buf writes).1 ++ (write_out slice l).1)

pub begun-IsPartial : (c : ℕ) (b : Bytes) → IsPartial (c ∷ b) [] (c ∷ b)
unfolding write_out
begun-IsPartial c b = record { more = λ e. cc e; goes_on = λ l. refl }

nothing_more : (slice : Bytes) → (write_out slice []).1 ≡ []
unfolding write_out
nothing_more [] = refl
nothing_more (c ∷ s) = refl

-- A call that accepted some of the slice, but not all.
pub written-IsPartial :
    (buf : Bytes) (writes : List (Result ℕ VConnError)) (slice : Bytes) (w : ℕ)
    → (w == 0) ≡ false
    → drop w slice ≢ []
    → IsPartial buf writes slice
    → IsPartial buf (writes ++ ok w ∷ []) (drop w slice)
unfolding write_out
written-IsPartial buf writes [] w some_taken rest h = absurd (h.more refl)
written-IsPartial buf writes (c ∷ s) w some_taken rest h = record {
  more = rest;
  goes_on = λ l.
      let tail = write_out (drop w (c ∷ s)) in
      let step = λ (k : List (Result ℕ VConnError)).
        ap
          (λ (b : Bool).
            if b then (failed zero_write, []) else ((tail k).0, take w (c ∷ s) ++ (tail k).1))
          some_taken in
      let at = λ (k : List (Result ℕ VConnError)).
        h.goes_on (ok w ∷ k)
        ∙ ap (λ (x : Outcome × Bytes). (x.0, (write_out buf writes).1 ++ x.1)) (step k) in
      let first = write_out buf writes in
      let sent : (write_out buf (writes ++ ok w ∷ [])).1 ≡ first.1 ++ take w (c ∷ s) =
        ap (λ (x : Outcome × Bytes). x.1) (at [])
        ∙ ap (λ b. first.1 ++ (take w (c ∷ s) ++ b)) (nothing_more (drop w (c ∷ s)))
        ∙ ap (◌++◌ first.1) (append-nil (take w (c ∷ s))) in
      ap (write_out buf) (append_assoc writes (ok w ∷ []) l)
      ∙ at l
      ∙ ap (λ (b : Bytes). ((tail l).0, b))
          (sym (append_assoc first.1 (take w (c ∷ s)) (tail l).1)
            ∙ ap (λ b. b ++ (tail l).1) (sym sent));
}

-- How the inner loop stands, by the call that comes next.
pub partial_waits :
    (buf : Bytes) (writes : List (Result ℕ VConnError)) (slice : Bytes)
    → IsPartial buf writes slice
    → write_out buf writes ≡ (waiting, (write_out buf writes).1)
unfolding write_out
partial_waits buf writes [] h = absurd (h.more refl)
partial_waits buf writes (c ∷ s) h =
    let e = ap (write_out buf) (sym (append-nil writes)) ∙ h.goes_on [] in
    λ i. (ap (λ (x : Outcome × Bytes). x.0) e i, (write_out buf writes).1)

pub partial_fails :
    (buf : Bytes) (writes : List (Result ℕ VConnError)) (slice : Bytes) (e : VConnError)
    → IsPartial buf writes slice
    → write_out buf (writes ++ err e ∷ []) ≡ (failed (vconn e), (write_out buf writes).1)
unfolding write_out
partial_fails buf writes [] e h = absurd (h.more refl)
partial_fails buf writes (c ∷ s) e h =
    h.goes_on (err e ∷ [])
    ∙ ap (λ (b : Bytes). (failed (vconn e), b)) (append-nil (write_out buf writes).1)

pub partial_writes_none :
    (buf : Bytes) (writes : List (Result ℕ VConnError)) (slice : Bytes) (w : ℕ)
    → (w == 0) ≡ true
    → IsPartial buf writes slice
    → write_out buf (writes ++ ok w ∷ []) ≡ (failed zero_write, (write_out buf writes).1)
unfolding write_out
partial_writes_none buf writes [] w e h = absurd (h.more refl)
partial_writes_none buf writes (c ∷ s) w e h =
    let tail = write_out (drop w (c ∷ s)) [] in
    let first = (write_out buf writes).1 in
    h.goes_on (ok w ∷ [])
    ∙ ap
        (λ (b : Bool).
          let x : Outcome × Bytes =
            if b then (failed zero_write, []) else (tail.0, take w (c ∷ s) ++ tail.1) in
          (x.0, first ++ x.1))
        e
    ∙ ap (λ (b : Bytes). (failed zero_write, b)) (append-nil first)

pub partial_writes :
    (buf : Bytes) (writes : List (Result ℕ VConnError)) (slice : Bytes) (w : ℕ)
    → (w == 0) ≡ false
    → IsPartial buf writes slice
    → write_out buf (writes ++ ok w ∷ [])
      ≡ ((write_out (drop w slice) []).0, (write_out buf writes).1 ++ take w slice)
unfolding write_out
partial_writes buf writes [] w e h = absurd (h.more refl)
partial_writes buf writes (c ∷ s) w e h =
    let tail = write_out (drop w (c ∷ s)) [] in
    let first = (write_out buf writes).1 in
    h.goes_on (ok w ∷ [])
    ∙ ap
        (λ (b : Bool).
          let x : Outcome × Bytes =
            if b then (failed zero_write, []) else (tail.0, take w (c ∷ s) ++ tail.1) in
          (x.0, first ++ x.1))
        e
    ∙ ap (λ (b : Bytes). (tail.0, first ++ b))
        (ap (◌++◌ (take w (c ∷ s))) (nothing_more (drop w (c ∷ s))) ∙ append-nil (take w (c ∷ s)))

-- A round that wrote all that it read.
abbrev pub IsThrough : DownRound → Type 0
IsThrough r =
    (c : ℕ) × (b : Bytes) × (r.read ≡ some (c ∷ b)) × ((write_out (c ∷ b) r.writes).0 ≡ done)

through_round :
    (r : DownRound) (rest : DownOut)
    → IsThrough r
    → (a : Bytes) × ((x : DownOut)
        → down_round r.read r.writes x ≡ record x { accepted = a ++ x.accepted })
unfolding down_round down_chunk
through_round r rest (c, b, e, h) =
    let o = write_out (c ∷ b) r.writes in
    (o.1, λ x. ap (λ read. down_round read r.writes x) e ∙ (λ i. down_chunk (h i, o.1) x))

-- Rounds behind those that wrote all that they read.
pub copy_to_vconn-append :
    (front l : List DownRound)
    → All IsThrough front
    → copy_to_vconn (front ++ l) ≡ record (copy_to_vconn l) {
      accepted = (copy_to_vconn front).accepted ++ (copy_to_vconn l).accepted;
    }
unfolding copy_to_vconn
copy_to_vconn-append [] l h = refl
copy_to_vconn-append (r ∷ front) l h =
    let (a, step) = through_round r (copy_to_vconn l) h.0 in
    let x = copy_to_vconn l in
    let y = copy_to_vconn front in
    ap (down_round r.read r.writes) (copy_to_vconn-append front l h.1)
    ∙ step (record x { accepted = y.accepted ++ x.accepted })
    ∙ ap (λ (b : Bytes). record x { accepted = b })
        (sym (append_assoc a y.accepted x.accepted)
          ∙ ap (λ (o : DownOut). o.accepted ++ x.accepted) (sym (step y)))

-- One round, by what becomes of its writes.
pub copy_one :
    (c : ℕ) (b : Bytes) (writes : List (Result ℕ VConnError)) (o : Outcome) (a : Bytes)
    → write_out (c ∷ b) writes ≡ (o, a)
    → copy_to_vconn (record { read = some (c ∷ b); writes = writes } ∷ []) ≡ record {
      outcome = elim o [ done ↦ waiting | waiting ↦ waiting | failed e ↦ failed e ];
      accepted = elim o [ done ↦ a ++ [] | waiting ↦ a | failed e ↦ a ];
      half_closed = false;
    }
unfolding copy_to_vconn down_round down_chunk
copy_one c b writes done a e = ap (λ (x : Outcome × Bytes). down_chunk x (copy_to_vconn [])) e
copy_one c b writes waiting a e = ap (λ (x : Outcome × Bytes). down_chunk x (copy_to_vconn [])) e
copy_one c b writes (failed x) a e = ap (λ (x : Outcome × Bytes). down_chunk x (copy_to_vconn [])) e
