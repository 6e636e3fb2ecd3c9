-- ===== src/Relay/Session/DownRun.antt =====
-- The rounds of `copy_to_vconn` of src/relay.rs that the downward loop of a relay goes through.
use smoltcp_socks.Common.{
  ℕ, ◌≡◌, refl, ap, sym, subst, ◌∙◌, Bool, true, false, List, [], ◌∷◌, ◌++◌, Bytes, Option, none,
  some, Result, ok, err, append_assoc, append-nil, take, drop, ◌==◌, ==_iff, if◌then◌else◌, All,
  All-append, Bool-cases, inl, inr,
}
use smoltcp_socks.Netstack.Vconn.{VConnError}
use smoltcp_socks.Netstack.Socket.{Tcp}
use smoltcp_socks.Relay.{
  Outcome, done, waiting, failed, RelayError, vconn, upstream_read, zero_write, DownRound, DownOut,
  write_out, down_round, copy_to_vconn,
}
use smoltcp_socks.Relay.Session.{
  Down, reads_source, awaits_write, awaits_close_write, down_ended, write_answered, slice_left,
  source_read, accepted_of, Session,
}
use smoltcp_socks.Relay.Session.Trace.{after_source, half_closes, push_write, push_write-append}
use smoltcp_socks.Relay.Session.Partial.{
  IsPartial, IsThrough, begun-IsPartial, written-IsPartial, partial_waits, partial_fails,
  partial_writes_none, partial_writes, copy_to_vconn-append, copy_one,
}

abbrev pub one_round : Option Bytes → List (Result ℕ VConnError) → List DownRound
one_round read writes = record { read = read; writes = writes } ∷ []

-- The round in which the loop is: it has still to write the slice.
abbrev pub Writing : Bytes → List DownRound → Type 0
Writing slice current =
    (c : ℕ) × (b : Bytes) × (writes : List (Result ℕ VConnError)) × (current
      ≡ one_round (some (c ∷ b)) writes)
    × IsPartial (c ∷ b) writes slice

abbrev pub DownIs : Down → List DownRound → Type 0
DownIs reads_source current = current ≡ []
DownIs (Down.calls_write slice) current = Writing slice current
DownIs (awaits_write slice i o) current = Writing slice current
DownIs Down.calls_close_write current = current ≡ []
DownIs (awaits_close_write i o) current = current ≡ []
DownIs (down_ended true) current =
    ((copy_to_vconn current).outcome ≡ done) × ((copy_to_vconn current).half_closed ≡ true)
DownIs (down_ended false) current =
    (e : RelayError) × ((copy_to_vconn current).outcome ≡ failed e)
    × ((copy_to_vconn current).half_closed ≡ false)

begun : (c : ℕ) (b : Bytes) → write_out (c ∷ b) [] ≡ (waiting, [])
unfolding write_out
begun c b = refl

module _ (t : Tcp) where
  -- The rounds are those that the loop has gone through, and the one that it is in or has ended in.
  pub record IsDownRun (rounds : List DownRound) (s : Session t) : Type 0 where
    pub front : List DownRound
    pub through : All IsThrough front
    pub current : List DownRound
    pub whole : front ++ current ≡ rounds
    pub accepted : (copy_to_vconn front).accepted ++ (copy_to_vconn current).accepted ≡ s.accepted
    pub stands : DownIs s.down current

module _ (t : Tcp) {rounds : List DownRound} where
  pub aside :
      (s u : Session t)
      → u.down ≡ s.down
      → u.accepted ≡ s.accepted
      → IsDownRun t rounds s
      → IsDownRun t rounds u
  aside s u down same h = record {
    front = h.front;
    through = h.through;
    current = h.current;
    whole = h.whole;
    accepted = h.accepted ∙ sym same;
    stands = subst (λ d. DownIs d h.current) (sym down) h.stands;
  }

  pub down_at :
      (s : Session t) (d : Down) (h : IsDownRun t rounds s) → s.down ≡ d → DownIs d h.current
  down_at s d h down = subst (λ d. DownIs d h.current) down h.stands

  before : {s : Session t} (h : IsDownRun t rounds s) → h.current ≡ [] → h.front ≡ rounds
  before h between = sym (append-nil h.front) ∙ ap (◌++◌ h.front) (sym between) ∙ h.whole

  -- The loop is between two rounds, and the next stands as `current`.
  next_round :
      (s u : Session t) (h : IsDownRun t rounds s) (current : List DownRound)
      → h.current ≡ []
      → (copy_to_vconn current).accepted ≡ []
      → u.accepted ≡ s.accepted
      → DownIs u.down current
      → IsDownRun t (rounds ++ current) u
  unfolding copy_to_vconn
  next_round s u h current between none_yet same stands = record {
    front = h.front;
    through = h.through;
    current = current;
    whole = ap (λ l. l ++ current) (before h between);
    accepted =
        ap (◌++◌ (copy_to_vconn h.front).accepted)
          (none_yet ∙ ap (λ l. (copy_to_vconn l).accepted) (sym between))
        ∙ h.accepted
        ∙ sym same;
    stands = stands;
  }

  pub source_read-IsDownRun :
      (s u : Session t) (x : Option Bytes) (h : IsDownRun t rounds s)
      → h.current ≡ []
      → u.down ≡ source_read x
      → u.accepted ≡ s.accepted
      → IsDownRun t (after_source x rounds) u
  unfolding source_read copy_to_vconn down_round
  source_read-IsDownRun s u none h between down same =
      next_round s u h (one_round none []) between refl same
        (subst (λ d. DownIs d (one_round none [])) (sym down) (upstream_read, refl, refl))
  source_read-IsDownRun s u (some []) h between down same =
      subst (λ l. IsDownRun t l u) (append-nil rounds)
        (next_round s u h [] between refl same (subst (λ d. DownIs d []) (sym down) refl))
  source_read-IsDownRun s u (some (c ∷ b)) h between down same =
      next_round s u h (one_round (some (c ∷ b)) []) between
        (ap (λ (o : DownOut). o.accepted) (copy_one c b [] waiting [] (begun c b))) same
        (subst (λ d. DownIs d (one_round (some (c ∷ b)) [])) (sym down)
          (c, b, [], refl, begun-IsPartial c b))

  pub close_write_ended-IsDownRun :
      (s u : Session t) (h : IsDownRun t rounds s)
      → h.current ≡ []
      → u.down ≡ down_ended true
      → u.accepted ≡ s.accepted
      → IsDownRun t (half_closes rounds) u
  unfolding copy_to_vconn down_round
  close_write_ended-IsDownRun s u h between down same =
      next_round s u h (one_round (some []) []) between refl same
        (subst (λ d. DownIs d (one_round (some []) [])) (sym down) (refl, refl))

  -- A call of `write` came to `r`.
  module _ (s u : Session t) (slice : Bytes) (h : IsDownRun t rounds s) (c : ℕ) (b : Bytes)
      (writes : List (Result ℕ VConnError)) (at : h.current ≡ one_round (some (c ∷ b)) writes)
      (partial : IsPartial (c ∷ b) writes slice) where
    so_far : (copy_to_vconn h.front).accepted ++ (write_out (c ∷ b) writes).1 ≡ s.accepted
    so_far =
        ap (◌++◌ (copy_to_vconn h.front).accepted) (
          sym (
            ap (λ l. (copy_to_vconn l).accepted) at
            ∙ ap (λ (o : DownOut). o.accepted)
                (copy_one c b writes waiting (write_out (c ∷ b) writes).1
                  (partial_waits (c ∷ b) writes slice partial))))
        ∙ h.accepted

    -- The call is one of the round's.
    pushed :
        (r : Result ℕ VConnError)
        → h.front ++ one_round (some (c ∷ b)) (writes ++ r ∷ []) ≡ push_write r rounds
    pushed r =
        sym (push_write-append r h.front (record { read = some (c ∷ b); writes = writes }))
        ∙ ap (push_write r) (ap (◌++◌ h.front) (sym at) ∙ h.whole)

    -- The round goes on or ends with what the call has added.
    same_round :
        (r : Result ℕ VConnError) (added : Bytes)
        → (copy_to_vconn (one_round (some (c ∷ b)) (writes ++ r ∷ []))).accepted
          ≡ (write_out (c ∷ b) writes).1 ++ added
        → u.accepted ≡ s.accepted ++ added
        → DownIs u.down (one_round (some (c ∷ b)) (writes ++ r ∷ []))
        → IsDownRun t (push_write r rounds) u
    same_round r added sent more stands = record {
      front = h.front;
      through = h.through;
      current = one_round (some (c ∷ b)) (writes ++ r ∷ []);
      whole = pushed r;
      accepted =
          ap (◌++◌ (copy_to_vconn h.front).accepted) sent
          ∙ sym (append_assoc (copy_to_vconn h.front).accepted (write_out (c ∷ b) writes).1 added)
          ∙ ap (λ l. l ++ added) so_far
          ∙ sym more;
      stands = stands;
    }

    fails_with :
        (r : Result ℕ VConnError) (e : RelayError)
        → write_out (c ∷ b) (writes ++ r ∷ []) ≡ (failed e, (write_out (c ∷ b) writes).1)
        → u.down ≡ down_ended false
        → u.accepted ≡ s.accepted
        → IsDownRun t (push_write r rounds) u
    fails_with r e end down same =
        let out = copy_one c b (writes ++ r ∷ []) (failed e) (write_out (c ∷ b) writes).1 end in
        same_round r []
          (ap (λ (o : DownOut). o.accepted) out ∙ sym (append-nil (write_out (c ∷ b) writes).1))
          (same ∙ sym (append-nil s.accepted))
          (subst (λ d. DownIs d (one_round (some (c ∷ b)) (writes ++ r ∷ []))) (sym down)
            (e, ap (λ (o : DownOut). o.outcome) out, ap (λ (o : DownOut). o.half_closed) out))

    writes_on :
        (w : ℕ) (rest : Bytes)
        → (w == 0) ≡ false
        → drop w slice ≡ rest
        → u.down ≡ slice_left rest
        → u.accepted ≡ s.accepted ++ take w slice
        → IsDownRun t (push_write (ok w) rounds) u
    unfolding slice_left write_out copy_to_vconn
    writes_on w (d ∷ rest) some_taken left down more =
        let writes' = writes ++ ok w ∷ [] in
        let sent = (write_out (c ∷ b) writes).1 ++ take w slice in
        let step =
          partial_writes (c ∷ b) writes slice w some_taken partial
          ∙ ap (λ l. ((write_out l []).0, sent)) left in
        same_round (ok w) (take w slice)
          (ap (λ (o : DownOut). o.accepted) (copy_one c b writes' waiting sent step)) more
          (subst (λ d. DownIs d (one_round (some (c ∷ b)) writes')) (sym down)
            (
              c,
              b,
              writes',
              refl,
              subst (IsPartial (c ∷ b) writes') left
                  (written-IsPartial (c ∷ b) writes slice w some_taken (λ e. cc (e, left)) partial),
            ))
    writes_on w [] some_taken left down more =
        let writes' = writes ++ ok w ∷ [] in
        let sent = (write_out (c ∷ b) writes).1 ++ take w slice in
        let step =
          partial_writes (c ∷ b) writes slice w some_taken partial
          ∙ ap (λ l. ((write_out l []).0, sent)) left in
        let last = one_round (some (c ∷ b)) writes' in
        let front = (copy_to_vconn h.front).accepted in
        record {
          front = h.front ++ last;
          through =
              All-append IsThrough h.front last h.through
                ((c, b, refl, ap (λ (x : Outcome × Bytes). x.0) step), tt);
          current = [];
          whole = append-nil (h.front ++ last) ∙ pushed (ok w);
          accepted =
              append-nil (copy_to_vconn (h.front ++ last)).accepted
              ∙ ap (λ (o : DownOut). o.accepted) (copy_to_vconn-append h.front last h.through)
              ∙ ap (◌++◌ front) (
                  ap (λ (o : DownOut). o.accepted) (copy_one c b writes' done sent step)
                  ∙ append-nil sent)
              ∙ sym (append_assoc front (write_out (c ∷ b) writes).1 (take w slice))
              ∙ ap (λ l. l ++ take w slice) so_far
              ∙ sym more;
          stands = subst (λ d. DownIs d []) (sym down) refl;
        }

    pub write_answered-IsDownRun :
        (r : Result ℕ VConnError)
        → u.down ≡ write_answered slice r
        → u.accepted ≡ s.accepted ++ accepted_of slice r
        → IsDownRun t (push_write r rounds) u
    unfolding write_answered
    write_answered-IsDownRun (err e) down more =
        fails_with (err e) (vconn e) (partial_fails (c ∷ b) writes slice e partial) down
          (more ∙ append-nil s.accepted)
    write_answered-IsDownRun (ok w) down more = elim (Bool-cases (w == 0)) [
      | inl z ↦
          fails_with (ok w) zero_write (partial_writes_none (c ∷ b) writes slice w z partial)
            (down ∙ ap (λ (b : Bool). if b then down_ended false else slice_left (drop w slice)) z)
            (more ∙ ap (λ n. s.accepted ++ take n slice) ((==_iff w 0).0 z) ∙ append-nil s.accepted)
      | inr some_taken ↦
          writes_on w (drop w slice) some_taken refl
            (down
              ∙ ap (λ (b : Bool). if b then down_ended false else slice_left (drop w slice))
                  some_taken)
            more
    ]
