-- ===== src/Netstack/Run/Safety.antt =====
-- The poll loop of src/netstack/actor.rs does not panic, and looks at its channels often enough.
use smoltcp_socks.Common.{
  ℕ, ◌≤◌, ◌≡◌, refl, List, [], ◌∷◌, Option, none, some, arith, All, Bool-cases, inl, inr,
  All-append,
}
use smoltcp_socks.Netstack.{idle_poll_interval}
use smoltcp_socks.Netstack.Socket.{Tcp, TcpLaws, SocketSet, SocketSetLaws}
use smoltcp_socks.Netstack.Actor.{Actor, with_channels}
use smoltcp_socks.Netstack.Actor.Ownership.{
  present, IsSound, try_accept-IsSound, with_channels-IsSound,
}
use smoltcp_socks.Netstack.Actor.Service.{service_commands-IsSound}
use smoltcp_socks.Netstack.Run.{Round, Trace, sleep_time, turn, run, run_end, join}

module _ (t : Tcp) (ss : SocketSet t) where
  -- smoltcp's poll changes the sockets of the set, and neither adds nor removes one.
  abbrev pub KeepsHandles : (ss.Sockets → ss.Sockets) → Type 0
  KeepsHandles f = (p : ss.Sockets) (j : ℕ) → present (ss.get (f p) j) ≡ present (ss.get p j)

  pub record IsRound (r : Round t ss) : Type 0 where
    pub polls : KeepsHandles r.poll
    pub polls_egress : KeepsHandles r.poll_egress

  poll-IsSound :
      (f : ss.Sockets → ss.Sockets) (a : Actor t ss)
      → KeepsHandles f
      → IsSound t ss a
      → IsSound t ss (record a { sockets = f a.sockets })
  poll-IsSound f a keeps sound = record {
    owned = λ j. omega (arith, sound.owned j, keeps a.sockets j);
    pool = sound.pool;
  }

abbrev pub IsPrompt : ℕ → Type 0
IsPrompt sleep = sleep ≤ idle_poll_interval

sleep_time-IsPrompt : (delay : Option ℕ) → IsPrompt (sleep_time delay)
unfolding sleep_time
sleep_time-IsPrompt none = omega arith
sleep_time-IsPrompt (some delay) = omega arith

-- The loop sleeps until smoltcp's next timer or for the idle interval, whichever is shorter.
pub sleep_time_bounds :
    (delay : ℕ)
    → (sleep_time (some delay) ≤ delay)
      × (sleep_time (some delay) ≤ sleep_time none)
      × (sleep_time none ≡ idle_poll_interval)
unfolding sleep_time
sleep_time_bounds delay = omega arith

module _ (t : Tcp) (laws : TcpLaws t) (ss : SocketSet t) (set_laws : SocketSetLaws t ss) where
  -- A run that ends without a panic, in a sound state, and has slept promptly.
  abbrev pub Ends : Option (Actor t ss × Trace t ss) → Type 0
  Ends r =
      (a : Actor t ss) × (x : Trace t ss) × (r ≡ some (a, x))
      × IsSound t ss a
      × All IsPrompt x.sleeps

  pub turn-Ends :
      (r : Round t ss) (a : Actor t ss) → IsRound t ss r → IsSound t ss a → Ends (turn t ss r a)
  unfolding turn
  turn-Ends r a legal sound =
      let polled = poll-IsSound t ss r.poll a legal.polls sound in
      let (b, sent, e, s1) = try_accept-IsSound t laws ss set_laws r.admits _ polled in
      let (c, log, f, s2) = service_commands-IsSound t laws ss set_laws r.inbox b s1 in
      (
        record c { sockets = r.poll_egress c.sockets },
        record { accepted = sent; log = log; sleeps = sleep_time r.poll_delay ∷ [] },
        rw e (rw f refl),
        poll-IsSound t ss r.poll_egress c legal.polls_egress s2,
        (sleep_time-IsPrompt r.poll_delay, tt),
      )

  run-Ends :
      (rounds : List (Round t ss)) (a : Actor t ss)
      → All (IsRound t ss) rounds
      → IsSound t ss a
      → Ends (run t ss rounds a)
  unfolding run run_end join
  run-Ends [] a legal sound = (a, _, refl, sound, tt)
  run-Ends (r ∷ rounds) a legal sound =
      let (b, x, e, s1, p1) = turn-Ends r a legal.0 sound in
      let (c, y, f, s2, p2) = run-Ends rounds b legal.1 s1 in
      elim (Bool-cases r.stopped) [
        | inl halted ↦ (b, x, rw e (rw halted refl), s1, p1)
        | inr goes ↦ (
          c,
          join t ss x y,
          rw e (rw goes (rw f refl)),
          s2,
          All-append IsPrompt x.sleeps y.sleeps p1 p2,
        )
      ]

  -- The actor never panics: from its start, over any number of rounds in which smoltcp's polls
  -- change the sockets in any way but add or remove none, while connections are admitted or refused
  -- and relays send, cancel or leave at will, the loop runs to the end of the rounds or to its stop,
  -- the four listeners are in place, no handle dangles, no socket is leaked, and no round sleeps
  -- longer than the idle interval.
  pub run_safe :
      (rounds : List (Round t ss))
      → All (IsRound t ss) rounds
      → (a b : Actor t ss) × (x : Trace t ss) × (with_channels t ss ≡ some a)
        × (run t ss rounds a ≡ some (b, x))
        × IsSound t ss b
        × All IsPrompt x.sleeps
  run_safe rounds legal =
      let (a, e, sound, _) = with_channels-IsSound t laws ss set_laws in
      let (b, x, f, s, p) = run-Ends rounds a legal sound in (a, b, x, e, f, s, p)
