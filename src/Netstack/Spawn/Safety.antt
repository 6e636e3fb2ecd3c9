-- ===== src/Netstack/Spawn/Safety.antt =====
-- What holds of the tasks of src/netstack/actor.rs's `spawn` in every order in which they run.
use mathlib.Core.Option.{some-injective}
use smoltcp_socks.Common.{
  ℕ, ◌+◌, ◌-◌, ◌≤◌, ◌<◌, ◌≡◌, refl, ap, sym, subst, ◌∙◌, Bool, true, false, ltb, List, [], ◌∷◌,
  ◌++◌, Option, none, some, length, length-append, arith, All, append_assoc, append-nil,
}
use smoltcp_socks.Netstack.Socket.{Tcp, TcpLaws, SocketSet, SocketSetLaws}
use smoltcp_socks.Netstack.Actor.{Actor, with_channels}
use smoltcp_socks.Netstack.Actor.Ownership.{IsSound, with_channels-IsSound}
use smoltcp_socks.Netstack.Actor.Channels.{
  Ascending, listening, sending, Ascending-append, sending-append, sending-le-one, length-Ascending,
}
use smoltcp_socks.Netstack.Run.{Round, Trace}
use smoltcp_socks.Netstack.Run.Handoff.{turn-Hands}
use smoltcp_socks.Netstack.Run.Safety.{IsRound, turn-Ends}
use smoltcp_socks.Netstack.Spawn.{
  Accepted, System, running, started, spawn, room, turn_of, Step, goes_on, stops, panics,
  relays_one, dispatcher_ends, asks_to_stop, drops_handle, Reach, here, next, accepted_depth,
}

module _ (t : Tcp) (ss : SocketSet t) where
  -- The actor that runs is sound; the connections that were ever accepted have channels of their own,
  -- and at most one connection of the map listens to each of these, and none to any other.
  pub record IsRunning (a : Actor t ss) (all : List Accepted) : Type 0 where
    pub sound : IsSound t ss a
    pub fresh : Ascending 0 all a.next_channel
    pub matched : (k : ℕ) → listening k a.conns ≤ sending k all

  abbrev pub Actors : Option (Actor t ss) → List Accepted → Type 0
  Actors none all = (n : ℕ) × Ascending 0 all n
  Actors (some a) all = IsRunning a all

  abbrev pub HasEnded : Bool → Option (Actor t ss) → List Accepted → Type 0
  HasEnded true actor queue = Unit
  HasEnded false actor queue = (actor ≡ none) × (queue ≡ [])

  pub record IsSafe (s : System t ss) (all : List Accepted) : Type 0 where
    pub order : all ≡ s.relays ++ s.accepted
    pub bounded : length s.accepted ≤ accepted_depth
    pub actors : Actors s.actor all
    pub ended : HasEnded s.dispatching s.actor s.accepted

below :
    (top : ℕ) (l : List Accepted)
    → All (λ (p : Accepted). ltb p.0.cmd top ≡ true) l
    → All (λ (p : Accepted). p.0.cmd < top) l
below top [] h = tt
below top (p ∷ l) h = (ground (arith, h.0), below top l h.1)

module _ (t : Tcp) (laws : TcpLaws t) (ss : SocketSet t) (set_laws : SocketSetLaws t ss) where
  -- A turn sends no more than the channel has room for.
  turn_fits :
      (r : Round t ss) (queue : List Accepted) (a b : Actor t ss) (x : Trace t ss)
      → length queue ≤ accepted_depth
      → turn_of t ss r queue a ≡ some (b, x)
      → length (queue ++ x.accepted) ≤ accepted_depth
  unfolding turn_of
  turn_fits r queue a b x fits e =
      let h = turn-Hands t ss (record r { admits = room t ss queue a }) a b x e in
      let top = a.next_channel + (accepted_depth - length queue) in
      let few =
        length-Ascending a.next_channel b.next_channel top x.accepted h.fresh
          (below top x.accepted h.admitted) (omega arith) in
      omega (arith, few, length-append {0} queue x.accepted)

  -- A sound actor survives a turn.
  pub turn-IsSound :
      (r : Round t ss) (queue : List Accepted) (a : Actor t ss)
      → IsRound t ss r
      → IsSound t ss a
      → (b : Actor t ss) × (x : Trace t ss) × (turn_of t ss r queue a ≡ some (b, x))
        × IsSound t ss b
  unfolding turn_of
  turn-IsSound r queue a legal sound =
      let legal' : IsRound t ss (record r { admits = room t ss queue a }) = record {
        polls = legal.polls;
        polls_egress = legal.polls_egress;
      } in
      let (b, x, e, s, _) =
        turn-Ends t laws ss set_laws (record r { admits = room t ss queue a }) a legal' sound in
      (b, x, e, s)

  turn-IsRunning :
      (r : Round t ss) (queue : List Accepted) (a b : Actor t ss) (x : Trace t ss)
      (all : List Accepted)
      → IsRound t ss r
      → IsRunning t ss a all
      → turn_of t ss r queue a ≡ some (b, x)
      → IsRunning t ss b (all ++ x.accepted)
  unfolding turn_of
  turn-IsRunning r queue a b x all legal run e =
      let h = turn-Hands t ss (record r { admits = room t ss queue a }) a b x e in
      let (b', x', f, s) = turn-IsSound r queue a legal run.sound in
      record {
        sound =
            subst (λ (o : Actor t ss × Trace t ss). IsSound t ss o.0)
              (some-injective _ _ (sym f ∙ e)) s;
        fresh = Ascending-append 0 a.next_channel b.next_channel all x.accepted run.fresh h.fresh;
        matched = λ k. omega (arith, run.matched k, h.matched k, sending-append k all x.accepted);
      }

  -- The sends of a turn stand behind the queue.
  pub queued :
      (all relays queue sent : List Accepted)
      → all ≡ relays ++ queue
      → all ++ sent ≡ relays ++ (queue ++ sent)
  queued all relays queue sent e = ap (λ l. l ++ sent) e ∙ append_assoc relays queue sent

  settled :
      (u v : System t ss) (all sent said : List Accepted)
      → sent ≡ said
      → u ≡ v
      → IsSafe t ss v (all ++ said)
      → IsSafe t ss u (all ++ sent)
  settled u v all sent said says to safe =
      subst (λ l. IsSafe t ss u (all ++ l)) (sym says)
        (subst (λ w. IsSafe t ss w (all ++ said)) (sym to) safe)

  silent :
      (u v : System t ss) (all sent : List Accepted)
      → sent ≡ []
      → u ≡ v
      → IsSafe t ss v all
      → IsSafe t ss u (all ++ sent)
  silent u v all sent says to safe =
      settled u v all sent [] says to (subst (IsSafe t ss v) (sym (append-nil all)) safe)

  -- The dispatcher outlives the actor.
  pub still_dispatching :
      (d : Bool) (actor : Option (Actor t ss)) (a : Actor t ss) (queue : List Accepted)
      → HasEnded t ss d actor queue
      → actor ≡ some a
      → d ≡ true
  still_dispatching true actor a queue h e = refl
  still_dispatching false actor a queue h e = cc

  module _ (s : System t ss) (all : List Accepted) (safe : IsSafe t ss s all) where
    pub IsRunning-at : (a : Actor t ss) → s.actor ≡ some a → IsRunning t ss a all
    IsRunning-at a at = subst (λ o. Actors t ss o all) at safe.actors

    -- After a turn, whatever becomes of the actor.
    after_turn :
        (r : Round t ss) (a b : Actor t ss) (x : Trace t ss) (actor : Option (Actor t ss))
        → s.actor ≡ some a
        → turn_of t ss r s.accepted a ≡ some (b, x)
        → Actors t ss actor (all ++ x.accepted)
        → IsSafe t ss
            (record s { actor = actor; accepted = s.accepted ++ x.accepted })
            (all ++ x.accepted)
    after_turn r a b x actor at turned ok = record {
      order = queued all s.relays s.accepted x.accepted safe.order;
      bounded = turn_fits r s.accepted a b x safe.bounded turned;
      actors = ok;
      ended =
          subst (λ d. HasEnded t ss d actor (s.accepted ++ x.accepted))
            (sym (still_dispatching s.dispatching s.actor a s.accepted safe.ended at)) tt;
    }

    one_relayed :
        (p : Accepted) (queue : List Accepted)
        → s.dispatching ≡ true
        → s.accepted ≡ p ∷ queue
        → IsSafe t ss (record s { accepted = queue; relays = s.relays ++ p ∷ [] }) all
    one_relayed p queue on at = record {
      order = safe.order ∙ ap (◌++◌ s.relays) at ∙ sym (append_assoc s.relays (p ∷ []) queue);
      bounded = omega (arith, safe.bounded, ap length at);
      actors = safe.actors;
      ended = subst (λ d. HasEnded t ss d s.actor queue) (sym on) tt;
    }

  pub Step-IsSafe :
      {s u : System t ss} {sent all : List Accepted}
      → Step t ss s u sent
      → IsSafe t ss s all
      → IsSafe t ss u (all ++ sent)
  Step-IsSafe {s} {u} {sent} {all} (goes_on r a b x legal at turned says to) safe =
      settled u _ all sent x.accepted says to (
        after_turn s all safe r a b x (some b) at turned
          (turn-IsRunning r s.accepted a b x all legal (IsRunning-at s all safe a at) turned))
  Step-IsSafe {s} {u} {sent} {all} (stops r a b x legal at turned asked says to) safe =
      let run = turn-IsRunning r s.accepted a b x all legal (IsRunning-at s all safe a at) turned in
      settled u _ all sent x.accepted says to
        (after_turn s all safe r a b x none at turned (b.next_channel, run.fresh))
  Step-IsSafe {s} {u} {sent} {all} (panics r a legal at turned says to) safe =
      let (b, x, e, _) = turn-IsSound r s.accepted a legal (IsRunning-at s all safe a at).sound in
      absurd (cc)
  Step-IsSafe {s} {u} {sent} {all} (relays_one p queue on at says to) safe =
      silent u _ all sent says to (one_relayed s all safe p queue on at)
  Step-IsSafe {s} {u} {sent} {all} (dispatcher_ends on at gone says to) safe =
      silent u _ all sent says to (record {
        order = safe.order;
        bounded = safe.bounded;
        actors = safe.actors;
        ended = (gone, at);
      })
  Step-IsSafe {s} {u} {sent} {all} (asks_to_stop h held sends says to) safe =
      silent u _ all sent says to (record {
        order = safe.order;
        bounded = safe.bounded;
        actors = safe.actors;
        ended = safe.ended;
      })
  Step-IsSafe {s} {u} {sent} {all} (drops_handle held says to) safe =
      silent u _ all sent says to (record {
        order = safe.order;
        bounded = safe.bounded;
        actors = safe.actors;
        ended = safe.ended;
      })

  pub Reach-IsSafe :
      {s u : System t ss} {sent : List Accepted}
      → IsSafe t ss s []
      → Reach t ss s u sent
      → IsSafe t ss u sent
  Reach-IsSafe safe here = safe
  Reach-IsSafe {s} {u} safe (next {sent = sent} {more = more} r st e) =
      subst (IsSafe t ss u) (sym e) (Step-IsSafe st (Reach-IsSafe safe r))

  started_unused :
      (o : Option (Actor t ss)) (s : System t ss) → started t ss o ≡ some s → s.handle.sent ≡ 0
  unfolding started
  started_unused none s h = cc
  started_unused (some a) s h = ap (λ (u : System t ss). u.handle.sent) (sym (some-injective _ _ h))

  -- No stop message has been sent at the start.
  pub spawn_unused : (s : System t ss) → spawn t ss ≡ some s → s.handle.sent ≡ 0
  unfolding spawn
  spawn_unused s h = started_unused (with_channels t ss) s h

  started_running :
      (o : Option (Actor t ss)) (s : System t ss)
      → started t ss o ≡ some s
      → running t ss s.actor ≡ true
  unfolding started running
  started_running none s h = cc
  started_running (some a) s h =
      ap (λ (u : System t ss). running t ss u.actor) (sym (some-injective _ _ h))

  pub spawn_running : (s : System t ss) → spawn t ss ≡ some s → running t ss s.actor ≡ true
  unfolding spawn
  spawn_running s h = started_running (with_channels t ss) s h

  -- `spawn` succeeds, and starts safe.
  pub spawn-IsSafe : (s : System t ss) × (spawn t ss ≡ some s) × IsSafe t ss s []
  unfolding spawn started
  spawn-IsSafe =
      let (a, e, sound, none_yet) = with_channels-IsSound t laws ss set_laws in
      (
        record {
          actor = some a;
          accepted = [];
          dispatching = true;
          relays = [];
          handle = record { sent = 0; held = true };
        },
        rw e refl,
        record {
          order = refl;
          bounded = omega arith;
          actors = record {
            sound = sound;
            fresh = omega arith;
            matched = λ k. omega (arith, ap (listening k) none_yet);
          };
          ended = tt;
        },
      )

  -- In whatever order the tasks run, and whatever their environment does: all that the actor has
  -- accepted so far is, in its order, what relays were started with and then what is still queued, at
  -- most 64 connections are queued, no two of the accepted connections share a command channel, at
  -- most one connection of the actor listens to the channel of each and none to any other channel, the
  -- actor is sound while it runs, and the dispatcher ends only when the actor has ended and every
  -- accepted connection has its relay.
  pub tasks-IsSafe :
      (s u : System t ss) (sent : List Accepted)
      → spawn t ss ≡ some s
      → Reach t ss s u sent
      → IsSafe t ss u sent × ((k : ℕ) → sending k sent ≤ 1)
  tasks-IsSafe s u sent e r =
      let (s', f, safe) = spawn-IsSafe in
      let start = subst (λ w. IsSafe t ss w []) (some-injective _ _ (sym f ∙ e)) safe in
      let now = Reach-IsSafe start r in
      let (n, fresh) = some_bound u.actor sent now.actors in
      (now, λ k. sending-le-one 0 n k sent fresh)
    where
      some_bound :
          (o : Option (Actor t ss)) (l : List Accepted)
          → Actors t ss o l
          → (n : ℕ) × Ascending 0 l n
      some_bound none l h = h
      some_bound (some a) l h = (a.next_channel, h.fresh)
