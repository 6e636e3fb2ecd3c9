-- ===== src/Relay/Session/Preserved.antt =====
-- That every step keeps the requests of a relay of src/relay.rs in order.
use smoltcp_socks.Common.{
  ◌≡◌, inl, inr, refl, ap, sym, subst, ◌∙◌, Bool, true, false, [], ◌++◌, none, some, if◌then◌else◌,
}
use smoltcp_socks.Netstack.Vconn.{ConnCmd}
use smoltcp_socks.Netstack.Socket.{Tcp, TcpLaws}
use smoltcp_socks.Netstack.Conn.{ConnState, fail_pending, new}
use smoltcp_socks.Relay.Session.{
  Up, awaits_read, up_ended, awaits_write, awaits_close_write, down_ended, Stage, dialing, piping,
  over, awaits_close, read_answered, write_answered, source_read, bytes_of, accepted_of, Session,
  delivers, served,
}
use smoltcp_socks.Relay.Session.Steps.{
  Call, Step, dials, asks, call_fails, gets_read, writes_upstream, upstream_fails, reads_upstream,
  gets_write, gets_close_write, joins, gets_close, polls, takes, drops_conn, actor_ends, network,
}
use smoltcp_socks.Relay.Session.Flight.{
  reads_of, writes_of, wanted_read, wanted_write, wanted_close_write, wanted_close, has_ended_up,
  has_ended_down, IsJoined, IsOrderly,
}
use smoltcp_socks.Relay.Session.Moves.{InFlight-at, up_runs, down_runs}
use smoltcp_socks.Relay.Session.Requests.{
  has_answer, wanted_read-answered, IsUpServed-answered, IsFree-written, IsFree-read, over_idle,
  nothing_pending,
}
use smoltcp_socks.Relay.Session.Calls.{relayed, Call-IsOrderly}
use smoltcp_socks.Relay.Session.Takes.{takes_keep}
use smoltcp_socks.Relay.Session.Rounds.{polls_keep}

module _ (t : Tcp) where
  failed-IsOrderly :
      (s : Session t) (cmd : ConnCmd) (a f : Session t)
      → Call t s cmd a f
      → s.conn ≡ none
      → IsOrderly t s
      → IsOrderly t f
  failed-IsOrderly s cmd a f (Call.calls_read on up e to fails) gone h =
      subst (IsOrderly t) (sym fails) (
        relayed t s s.stage (up_ended false) s.down s.carried s.source s.accepted
          (λ c at. absurd (cc (gone, at))) tt h.down_served
          (subst (λ g. IsJoined g (up_ended false) s.down) (sym on) tt) h)
  failed-IsOrderly s cmd a f (Call.calls_write slice on down e to fails) gone h =
      subst (IsOrderly t) (sym fails) (
        relayed t s s.stage s.up (down_ended false) s.carried s.source s.accepted
          (λ c at. absurd (cc (gone, at))) h.up_served tt
          (subst (λ g. IsJoined g s.up (down_ended false)) (sym on) tt) h)
  failed-IsOrderly s cmd a f (Call.calls_close_write on down e to fails) gone h =
      subst (IsOrderly t) (sym fails) (
        relayed t s s.stage s.up (down_ended true) s.carried s.source s.accepted
          (λ c at. absurd (cc (gone, at))) h.up_served tt
          (subst (λ g. IsJoined g s.up (down_ended true)) (sym on) tt) h)
  failed-IsOrderly s cmd a f (Call.calls_close stage e to fails) gone h =
      subst (IsOrderly t) (sym fails) (
        relayed t s over s.up s.down s.carried s.source s.accepted (λ c at. absurd (cc (gone, at)))
          h.up_served h.down_served (inr (subst (λ g. IsJoined g s.up s.down) stage h.joined)) h)

  -- At the end of `pipe` the actor has nothing to fail.
  pub none_pending :
      (s : Session t) (c : ConnState)
      → s.conn ≡ some c
      → s.stage ≡ over
      → IsOrderly t s
      → (fail_pending c).1 ≡ []
  unfolding fail_pending
  none_pending s c at stage h =
      let f = InFlight-at t s c at h in
      let (r, w) = over_idle s.up s.down (subst (λ g. IsJoined g s.up s.down) stage h.joined) in
      rw
        (
          nothing_pending c.read (reads_of s.commands) (f.reads ∙ r),
          nothing_pending c.write (writes_of s.commands) (f.writes ∙ w),
        )
        refl

  module _ (laws : TcpLaws t) where
    pub Step-IsOrderly : (s u : Session t) → Step t s u → IsOrderly t s → IsOrderly t u
    unfolding delivers
    Step-IsOrderly s u (dials b stage to) h = subst (IsOrderly t) (sym to) (
        relayed t s (if b then piping else over) s.up s.down s.carried s.source s.accepted
          (λ c at. (refl, refl, refl, ap wanted_close stage ∙ dialled b)) h.up_served h.down_served
          (begins b (subst (λ g. IsJoined g s.up s.down) stage h.joined)) h)
      where
        dialled : (b : Bool) → [] ≡ wanted_close (if b then piping else over)
        dialled true = refl
        dialled false = refl

        begins :
            (b : Bool)
            → IsJoined dialing s.up s.down
            → IsJoined (if b then piping else over) s.up s.down
        begins true h = tt
        begins false h = inl h
    Step-IsOrderly s u (asks cmd a f c call at room to) h =
        subst (IsOrderly t) (sym to) (Call-IsOrderly t s cmd a f c call at h)
    Step-IsOrderly s u (call_fails cmd a f call gone to) h =
        subst (IsOrderly t) (sym to) (failed-IsOrderly s cmd a f call gone h)
    Step-IsOrderly s u (gets_read i o r up e to) h = subst (IsOrderly t) (sym to) (
        relayed t s s.stage (read_answered r) s.down s.carried s.source s.accepted
          (λ c at. (
            ap wanted_read up
                ∙ ap (λ o. wanted_read (awaits_read i o)) (has_answer o s.conn r c e at)
                ∙ sym (wanted_read-answered r),
            refl,
            refl,
            refl,
          ))
          (IsUpServed-answered r) h.down_served
          (up_runs s.stage s.up (read_answered r) s.down (λ p. cc (p, up)) (ap has_ended_up up)
            h.joined)
          h)
    Step-IsOrderly s u (writes_upstream buf up to) h = subst (IsOrderly t) (sym to) (
        relayed t s s.stage Up.calls_read s.down (s.carried ++ buf) s.source s.accepted
          (λ c at. (ap wanted_read up, refl, refl, refl)) tt h.down_served
          (up_runs s.stage s.up Up.calls_read s.down (λ p. cc (p, up)) (ap has_ended_up up)
            h.joined)
          h)
    Step-IsOrderly s u (upstream_fails buf up to) h = subst (IsOrderly t) (sym to) (
        relayed t s s.stage (up_ended false) s.down s.carried s.source s.accepted
          (λ c at. (ap wanted_read up, refl, refl, refl)) tt h.down_served
          (up_runs s.stage s.up (up_ended false) s.down (λ p. cc (p, up)) (ap has_ended_up up)
            h.joined)
          h)
    Step-IsOrderly s u (reads_upstream o on down to) h =
        let (w, cw, served) = IsFree-read o in
        subst (IsOrderly t) (sym to) (
          relayed t s s.stage s.up (source_read o) s.carried (s.source ++ bytes_of o) s.accepted
            (λ c at.
              (refl, ap wanted_write down ∙ sym w, ap wanted_close_write down ∙ sym cw, refl))
            h.up_served served (subst (λ g. IsJoined g s.up (source_read o)) (sym on) tt) h)
    Step-IsOrderly s u (gets_write slice i o r down e to) h =
        let (w, cw, served) = IsFree-written slice r in
        subst (IsOrderly t) (sym to) (
          relayed t s s.stage s.up (write_answered slice r) s.carried s.source
            (s.accepted ++ accepted_of slice r)
            (λ c at. (
              refl,
              ap wanted_write down
                  ∙ ap (λ o. wanted_write (awaits_write slice i o)) (has_answer o s.conn r c e at)
                  ∙ sym w,
              ap wanted_close_write down ∙ sym cw,
              refl,
            ))
            h.up_served served
            (down_runs s.stage s.up s.down (write_answered slice r) (λ p. cc (p, down))
              (ap has_ended_down down) h.joined)
            h)
    Step-IsOrderly s u (gets_close_write i o r down e to) h = subst (IsOrderly t) (sym to) (
        relayed t s s.stage s.up (down_ended true) s.carried s.source s.accepted
          (λ c at. (
            refl,
            ap wanted_write down,
            ap wanted_close_write down
                ∙ ap (λ o. wanted_close_write (awaits_close_write i o))
                    (has_answer o s.conn r c e at),
            refl,
          ))
          h.up_served tt
          (down_runs s.stage s.up s.down (down_ended true) (λ p. cc (p, down))
            (ap has_ended_down down) h.joined)
          h)
    Step-IsOrderly s u (joins a b on up down to) h = subst (IsOrderly t) (sym to) (
        relayed t s Stage.calls_close s.up s.down s.carried s.source s.accepted
          (λ c at. (refl, refl, refl, ap wanted_close on)) h.up_served h.down_served
          (ap has_ended_up up, ap has_ended_down down) h)
    Step-IsOrderly s u (gets_close i o r stage e to) h = subst (IsOrderly t) (sym to) (
        relayed t s over s.up s.down s.carried s.source s.accepted
          (λ c at. (
            refl,
            refl,
            refl,
            ap wanted_close stage
                ∙ ap (λ o. wanted_close (awaits_close i o)) (has_answer o s.conn r c e at),
          ))
          h.up_served h.down_served (inr (subst (λ g. IsJoined g s.up s.down) stage h.joined)) h)
    Step-IsOrderly s u (polls c at to) h =
        subst (IsOrderly t) (sym to)
          (polls_keep t laws (λ s. Unit {0}) s c (λ s u mv h p. p) at (h, tt)).0
    Step-IsOrderly s u (takes c cmd rest at head to) h =
        subst (IsOrderly t) (sym to)
          (takes_keep t laws (λ s. Unit {0}) s c cmd rest (λ s u mv h p. p) at head (h, tt)).0
    Step-IsOrderly s u (drops_conn c at stage empty to) h =
        subst (IsOrderly t)
          (sym (
            to
            ∙ ap (λ l. record (delivers t l s) { conn = none; socket = t.abort s.socket })
                (none_pending s c at stage h)))
          (record {
            requests = empty;
            up_served = h.up_served;
            down_served = h.down_served;
            joined = h.joined;
          })
    Step-IsOrderly s u (actor_ends to) h = subst (IsOrderly t) (sym to) (record {
      requests = refl;
      up_served = h.up_served;
      down_served = h.down_served;
      joined = h.joined;
    })
    Step-IsOrderly s u (network socket new grown kept to) h = subst (IsOrderly t) (sym to) (record {
      requests = h.requests;
      up_served = h.up_served;
      down_served = h.down_served;
      joined = h.joined;
    })
