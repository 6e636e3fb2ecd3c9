-- ===== src/Relay/Session/Downward.antt =====
-- The downward loop of Relay/Session/Steps.antt is `copy_to_vconn` of src/relay.rs, on the rounds that
-- it goes through.
use smoltcp_socks.Common.{
  ℕ, ◌≡◌, refl, ap, sym, subst, ◌∙◌, true, false, List, [], ◌∷◌, ◌++◌, Bytes, none, err, append-nil,
}
use smoltcp_socks.Netstack.Vconn.{ConnCmd, actor_gone}
use smoltcp_socks.Netstack.Socket.{Tcp, TcpLaws}
use smoltcp_socks.Netstack.Conn.{new}
use smoltcp_socks.Relay.{
  done, waiting, failed, RelayError, DownRound, DownOut, write_out, copy_to_vconn,
}
use smoltcp_socks.Relay.Session.{
  Down, reads_source, awaits_write, awaits_close_write, down_ended, write_answered, Session, opened,
  delivers,
}
use smoltcp_socks.Relay.Session.Flight.{IsOrderly}
use smoltcp_socks.Relay.Session.Moves.{
  rests, answers_read, answers_write, takes_read, takes_write, answers_close_write, answers_close,
  Keeps,
}
use smoltcp_socks.Relay.Session.Orderly.{Reach-IsOrderly}
use smoltcp_socks.Relay.Session.Partial.{partial_waits, copy_to_vconn-append, copy_one}
use smoltcp_socks.Relay.Session.Preserved.{none_pending}
use smoltcp_socks.Relay.Session.Rounds.{polls_keep}
use smoltcp_socks.Relay.Session.Steps.{
  Call, Step, Reach, here, next, dials, asks, call_fails, gets_read, writes_upstream,
  upstream_fails, reads_upstream, gets_write, gets_close_write, joins, gets_close, polls, takes,
  drops_conn, actor_ends, network,
}
use smoltcp_socks.Relay.Session.Trace.{down_call_fails, down_step, down_rounds}
use smoltcp_socks.Relay.Session.Takes.{takes_keep}
use smoltcp_socks.Relay.Session.DownRun.{
  Writing, DownIs, aside, down_at, source_read-IsDownRun, close_write_ended-IsDownRun,
  write_answered-IsDownRun, IsDownRun,
}

module _ (t : Tcp) {rounds : List DownRound} where
  Move-IsDownRun : Keeps t (IsDownRun t rounds)
  Move-IsDownRun s u (rests to) o h = subst (IsDownRun t rounds) (sym to) h
  Move-IsDownRun s u (answers_write c slice i r socket at down alone served taken kept to) o h =
      subst (IsDownRun t rounds) (sym to) (record {
        front = h.front;
        through = h.through;
        current = h.current;
        whole = h.whole;
        accepted = h.accepted;
        stands = down_at t s (awaits_write slice i none) h down;
      })
  Move-IsDownRun s u (answers_close_write c i rest at head down alone to) o h =
      subst (IsDownRun t rounds) (sym to) (record {
        front = h.front;
        through = h.through;
        current = h.current;
        whole = h.whole;
        accepted = h.accepted;
        stands = down_at t s (awaits_close_write i none) h down;
      })
  Move-IsDownRun s u (answers_read c i r socket at up alone served taken kept to) o h =
      aside t s u (ap (λ (u : Session t). u.down) to) (ap (λ (u : Session t). u.accepted) to) h
  Move-IsDownRun s u (takes_read c max_len i rest at head idle to) o h =
      aside t s u (ap (λ (u : Session t). u.down) to) (ap (λ (u : Session t). u.accepted) to) h
  Move-IsDownRun s u (takes_write c body i rest at head idle to) o h =
      aside t s u (ap (λ (u : Session t). u.down) to) (ap (λ (u : Session t). u.accepted) to) h
  Move-IsDownRun s u (answers_close c i rest at head stage alone to) o h =
      aside t s u (ap (λ (u : Session t). u.down) to) (ap (λ (u : Session t). u.accepted) to) h

  Call-IsDownRun :
      (s : Session t) (cmd : ConnCmd) (a f : Session t) (call : Call t s cmd a f)
      → IsDownRun t rounds s
      → IsDownRun t rounds a × IsDownRun t (down_call_fails t call rounds) f
  unfolding write_answered
  Call-IsDownRun s cmd a f (Call.calls_write slice on down e to fails) h =
      let (c, b, writes, at, partial) = down_at t s (Down.calls_write slice) h down in
      (
        subst (IsDownRun t rounds) (sym to) (record {
          front = h.front;
          through = h.through;
          current = h.current;
          whole = h.whole;
          accepted = h.accepted;
          stands = (c, b, writes, at, partial);
        }),
        write_answered-IsDownRun t s f slice h c b writes at partial (err actor_gone)
            (ap (λ (u : Session t). u.down) fails)
            (ap (λ (u : Session t). u.accepted) fails ∙ sym (append-nil s.accepted)),
      )
  Call-IsDownRun s cmd a f (Call.calls_close_write on down e to fails) h =
      let between = down_at t s Down.calls_close_write h down in
      (
        subst (IsDownRun t rounds) (sym to) (record {
          front = h.front;
          through = h.through;
          current = h.current;
          whole = h.whole;
          accepted = h.accepted;
          stands = between;
        }),
        close_write_ended-IsDownRun t s f h between (ap (λ (u : Session t). u.down) fails)
            (ap (λ (u : Session t). u.accepted) fails),
      )
  Call-IsDownRun s cmd a f (Call.calls_read on up e to fails) h = (
    aside t s a (ap (λ (u : Session t). u.down) to) (ap (λ (u : Session t). u.accepted) to) h,
    aside t s f (ap (λ (u : Session t). u.down) fails) (ap (λ (u : Session t). u.accepted) fails) h,
  )
  Call-IsDownRun s cmd a f (Call.calls_close on e to fails) h = (
    aside t s a (ap (λ (u : Session t). u.down) to) (ap (λ (u : Session t). u.accepted) to) h,
    aside t s f (ap (λ (u : Session t). u.down) fails) (ap (λ (u : Session t). u.accepted) fails) h,
  )

  module _ (laws : TcpLaws t) where
    Step-IsDownRun :
        (s u : Session t) (st : Step t s u)
        → IsOrderly t s
        → IsDownRun t rounds s
        → IsDownRun t (down_step t st rounds) u
    unfolding delivers
    Step-IsDownRun s u (asks cmd a f c call at room to) o h =
        aside t a u (ap (λ (u : Session t). u.down) to) (ap (λ (u : Session t). u.accepted) to)
          (Call-IsDownRun s cmd a f call h).0
    Step-IsDownRun s u (call_fails cmd a f call gone to) o h =
        subst (IsDownRun t (down_call_fails t call rounds)) (sym to)
          (Call-IsDownRun s cmd a f call h).1
    Step-IsDownRun s u (reads_upstream x on down to) o h =
        source_read-IsDownRun t s u x h (down_at t s reads_source h down)
          (ap (λ (u : Session t). u.down) to) (ap (λ (u : Session t). u.accepted) to)
    Step-IsDownRun s u (gets_write slice i x r down e to) o h =
        let (c, b, writes, at, partial) = down_at t s (awaits_write slice i x) h down in
        write_answered-IsDownRun t s u slice h c b writes at partial r
          (ap (λ (u : Session t). u.down) to) (ap (λ (u : Session t). u.accepted) to)
    Step-IsDownRun s u (gets_close_write i x r down e to) o h =
        close_write_ended-IsDownRun t s u h (down_at t s (awaits_close_write i x) h down)
          (ap (λ (u : Session t). u.down) to) (ap (λ (u : Session t). u.accepted) to)
    Step-IsDownRun s u (polls c at to) o h =
        subst (IsDownRun t rounds) (sym to)
          (polls_keep t laws (IsDownRun t rounds) s c Move-IsDownRun at (o, h)).1
    Step-IsDownRun s u (takes c cmd rest at head to) o h =
        subst (IsDownRun t rounds) (sym to)
          (takes_keep t laws (IsDownRun t rounds) s c cmd rest Move-IsDownRun at head (o, h)).1
    Step-IsDownRun s u (drops_conn c at stage empty to) o h =
        let e =
          to
          ∙ ap (λ l. record (delivers t l s) { conn = none; socket = t.abort s.socket })
              (none_pending t s c at stage o) in
        aside t s u (ap (λ (u : Session t). u.down) e) (ap (λ (u : Session t). u.accepted) e) h
    Step-IsDownRun s u (dials b stage to) o h =
        aside t s u (ap (λ (u : Session t). u.down) to) (ap (λ (u : Session t). u.accepted) to) h
    Step-IsDownRun s u (gets_read i x r up e to) o h =
        aside t s u (ap (λ (u : Session t). u.down) to) (ap (λ (u : Session t). u.accepted) to) h
    Step-IsDownRun s u (writes_upstream buf up to) o h =
        aside t s u (ap (λ (u : Session t). u.down) to) (ap (λ (u : Session t). u.accepted) to) h
    Step-IsDownRun s u (upstream_fails buf up to) o h =
        aside t s u (ap (λ (u : Session t). u.down) to) (ap (λ (u : Session t). u.accepted) to) h
    Step-IsDownRun s u (joins a b on up down to) o h =
        aside t s u (ap (λ (u : Session t). u.down) to) (ap (λ (u : Session t). u.accepted) to) h
    Step-IsDownRun s u (gets_close i x r stage e to) o h =
        aside t s u (ap (λ (u : Session t). u.down) to) (ap (λ (u : Session t). u.accepted) to) h
    Step-IsDownRun s u (actor_ends to) o h =
        aside t s u (ap (λ (u : Session t). u.down) to) (ap (λ (u : Session t). u.accepted) to) h
    Step-IsDownRun s u (network socket new_bytes grown kept to) o h =
        aside t s u (ap (λ (u : Session t). u.down) to) (ap (λ (u : Session t). u.accepted) to) h

-- How the loop stands, as an outcome of `copy_to_vconn`.
abbrev pub DownEnds : Down → DownOut → Type 0
DownEnds (down_ended true) o = (o.outcome ≡ done) × (o.half_closed ≡ true)
DownEnds (down_ended false) o = (e : RelayError) × (o.outcome ≡ failed e) × (o.half_closed ≡ false)
DownEnds reads_source o = (o.outcome ≡ waiting) × (o.half_closed ≡ false)
DownEnds (Down.calls_write slice) o = (o.outcome ≡ waiting) × (o.half_closed ≡ false)
DownEnds (awaits_write slice i x) o = (o.outcome ≡ waiting) × (o.half_closed ≡ false)
DownEnds Down.calls_close_write o = (o.outcome ≡ waiting) × (o.half_closed ≡ false)
DownEnds (awaits_close_write i x) o = (o.outcome ≡ waiting) × (o.half_closed ≡ false)

Writing-ends :
    (slice : Bytes) (current : List DownRound)
    → Writing slice current
    → ((copy_to_vconn current).outcome ≡ waiting) × ((copy_to_vconn current).half_closed ≡ false)
Writing-ends slice current (c, b, writes, at, partial) =
    let e =
      ap copy_to_vconn at
      ∙ copy_one c b writes waiting (write_out (c ∷ b) writes).1
          (partial_waits (c ∷ b) writes slice partial) in
    (ap (λ (o : DownOut). o.outcome) e, ap (λ (o : DownOut). o.half_closed) e)

between_ends :
    (current : List DownRound)
    → current ≡ []
    → ((copy_to_vconn current).outcome ≡ waiting) × ((copy_to_vconn current).half_closed ≡ false)
unfolding copy_to_vconn
between_ends current e =
    (ap (λ l. (copy_to_vconn l).outcome) e, ap (λ l. (copy_to_vconn l).half_closed) e)

DownIs-ends :
    (d : Down) (current : List DownRound) → DownIs d current → DownEnds d (copy_to_vconn current)
DownIs-ends (down_ended true) current h = h
DownIs-ends (down_ended false) current h = h
DownIs-ends reads_source current h = between_ends current h
DownIs-ends (Down.calls_write slice) current h = Writing-ends slice current h
DownIs-ends (awaits_write slice i x) current h = Writing-ends slice current h
DownIs-ends Down.calls_close_write current h = between_ends current h
DownIs-ends (awaits_close_write i x) current h = between_ends current h

ends_behind :
    (d : Down) (current front : List DownRound)
    → DownEnds d (copy_to_vconn current)
    → DownEnds d (record (copy_to_vconn current) {
      accepted = (copy_to_vconn front).accepted ++ (copy_to_vconn current).accepted;
    })
ends_behind (down_ended true) current front h = h
ends_behind (down_ended false) current front h = h
ends_behind reads_source current front h = h
ends_behind (Down.calls_write slice) current front h = h
ends_behind (awaits_write slice i x) current front h = h
ends_behind Down.calls_close_write current front h = h
ends_behind (awaits_close_write i x) current front h = h

module _ (t : Tcp) (laws : TcpLaws t) where
  Reach-IsDownRun :
      (channel : ℕ) (socket : t.Socket) (s : Session t)
      (r : Reach t (opened t (new channel) socket) s)
      → IsDownRun t (down_rounds t r) s
  unfolding copy_to_vconn
  Reach-IsDownRun channel socket _ here = record {
    front = [];
    through = tt;
    current = [];
    whole = refl;
    accepted = refl;
    stands = refl;
  }
  Reach-IsDownRun channel socket s (next {u} r st) =
      Step-IsDownRun t laws u s st (Reach-IsOrderly t laws channel socket u r)
        (Reach-IsDownRun channel socket u r)

  -- The downward loop of a relay, in whatever order its steps fall between those of the others, does
  -- what `copy_to_vconn` does on the rounds of the run.
  pub relay_down_copies :
      (channel : ℕ) (socket : t.Socket) (s : Session t)
      (r : Reach t (opened t (new channel) socket) s)
      → ((copy_to_vconn (down_rounds t r)).accepted ≡ s.accepted)
        × DownEnds s.down (copy_to_vconn (down_rounds t r))
  relay_down_copies channel socket s r =
      let h = Reach-IsDownRun channel socket s r in
      let e = sym (ap copy_to_vconn h.whole) ∙ copy_to_vconn-append h.front h.current h.through in
      (
        ap (λ (o : DownOut). o.accepted) e ∙ h.accepted,
        subst (DownEnds s.down) (sym e)
            (ends_behind s.down h.current h.front (DownIs-ends s.down h.current h.stands)),
      )
