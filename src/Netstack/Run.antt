-- ===== src/Netstack/Run.antt =====
-- src/netstack/actor.rs's `run`: the poll loop. A round holds what comes from outside: the two calls
-- of smoltcp's interface, which change the sockets, what the loop body finds, the delay (in
-- milliseconds) until smoltcp's next timer, and which branch of the `select!` ends the round.
pub mod Safety
pub mod Handoff
use smoltcp_socks.Common.{ℕ, Bool, true, false, List, [], ◌∷◌, ◌++◌, Option, none, some, min}
use smoltcp_socks.Netstack.{idle_poll_interval}
use smoltcp_socks.Netstack.Vconn.{ConnMeta, VConn}
use smoltcp_socks.Netstack.Socket.{Tcp, SocketSet}
use smoltcp_socks.Netstack.Conn.{Event}
use smoltcp_socks.Netstack.Actor.{Inbox, Actor, ◌>>=◌, try_accept, service_commands}

-- `delay` of the loop body
pub sleep_time : Option ℕ → ℕ
sleep_time none = min idle_poll_interval idle_poll_interval
sleep_time (some delay) = min delay idle_poll_interval

module _ (t : Tcp) (ss : SocketSet t) where
  pub record Round : Type 0 where
    pub poll : ss.Sockets → ss.Sockets
    pub admits : ℕ → Bool
    pub inbox : ℕ → Inbox
    pub poll_egress : ss.Sockets → ss.Sockets
    pub poll_delay : Option ℕ
    pub stopped : Bool

  -- What a run of the loop shows to the other tasks.
  pub record Trace : Type 0 where
    pub accepted : List (VConn × ConnMeta)
    pub log : List Event
    pub sleeps : List ℕ

  -- The body of the loop.
  unfoldable pub turn : Round → Actor t ss → Option (Actor t ss × Trace)
  turn r a = do
    accepting ← try_accept t ss r.admits (record a { sockets = r.poll a.sockets })
    serving ← service_commands t ss r.inbox accepting.0
    some (
      record serving.0 { sockets = r.poll_egress serving.0.sockets },
      record { accepted = accepting.1; log = serving.1; sleeps = sleep_time r.poll_delay ∷ [] },
    )

  join : Trace → Trace → Trace
  join x y = record {
    accepted = x.accepted ++ y.accepted;
    log = x.log ++ y.log;
    sleeps = x.sleeps ++ y.sleeps;
  }

  pub run_end : Option (Actor t ss × Trace) → Trace → Option (Actor t ss × Trace)
  unfolding join
  run_end none x = none
  run_end (some (a, y)) x = some (a, join x y)

  -- The loop over the rounds that take place, until one is stopped.
  pub run : List Round → Actor t ss → Option (Actor t ss × Trace)
  unfolding turn run_end
  run [] a = some (a, record { accepted = []; log = []; sleeps = [] })
  run (r ∷ rounds) a = do
    body ← turn r a
    let rest = run rounds body.0
    elim r.stopped [ true ↦ some (body.0, body.1) | false ↦ run_end rest body.1 ]
