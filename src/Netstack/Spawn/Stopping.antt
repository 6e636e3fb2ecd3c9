-- ===== src/Netstack/Spawn/Stopping.antt =====
-- How the tasks of src/netstack/actor.rs's `spawn` come to their end.
use smoltcp_socks.Common.{
  suc, ◌≡◌, refl, ap, sym, subst, ◌∙◌, true, false, List, [], ◌∷◌, ◌++◌, none, some, arith,
  append_assoc, append-nil, inl, inr, Option-cases, Bool-cases,
}
use smoltcp_socks.Netstack.Socket.{Tcp, TcpLaws, SocketSet, SocketSetLaws}
use smoltcp_socks.Netstack.Actor.{Actor}
use smoltcp_socks.Netstack.Run.{Round}
use smoltcp_socks.Netstack.Run.Safety.{IsRound}
use smoltcp_socks.Netstack.Spawn.Safety.{
  IsSafe, turn-IsSound, HasEnded, queued, still_dispatching, IsRunning-at, Step-IsSafe,
}
use smoltcp_socks.Netstack.Spawn.{
  Accepted, System, Step, stops, relays_one, dispatcher_ends, asks_to_stop, Reach, here, next,
  running, stop, can_stop,
}

module _ (t : Tcp) (ss : SocketSet t) where
  -- From `s`, where `sent` was accepted, the tasks can come to their end, with a relay for each
  -- connection that was accepted up to then.
  abbrev pub CanEnd : System t ss → List Accepted → Type 0
  CanEnd s sent =
      (v : System t ss) × (more : List Accepted) × Reach t ss s v more
      × (v.actor ≡ none)
      × (v.dispatching ≡ false)
      × (v.relays ≡ sent ++ more)

  Step-first :
      (s u v : System t ss) (said more all : List Accepted)
      → Step t ss s u said
      → Reach t ss u v more
      → all ≡ said ++ more
      → Reach t ss s v all
  Step-first s u v said more all st here e = next here st (e ∙ append-nil said)
  Step-first s u v said more all st (next {sent = sent} {more = l} r last f) e =
      next (Step-first s u _ said sent (said ++ sent) st r refl) last
        (e ∙ ap (◌++◌ said) f ∙ sym (append_assoc said sent l))

  before :
      (s u : System t ss) (said sent l : List Accepted)
      → Step t ss s u said
      → CanEnd u l
      → l ≡ sent ++ said
      → CanEnd s sent
  before s u said sent l st (v, more, r, gone, off, e) same = (
    v,
    said ++ more,
    Step-first s u v said more (said ++ more) st r refl,
    gone,
    off,
    e ∙ ap (λ k. k ++ more) same ∙ append_assoc sent said more,
  )

  -- The dispatcher works its queue off.
  drains :
      (queue : List Accepted) (s : System t ss)
      → s.actor ≡ none
      → s.dispatching ≡ true
      → s.accepted ≡ queue
      → CanEnd s (s.relays ++ queue)
  drains [] s gone on at = (
    record s { dispatching = false },
    [],
    Step-first s _ _ [] [] [] (dispatcher_ends on at gone refl refl) here refl,
    gone,
    refl,
    sym (append-nil (s.relays ++ []) ∙ append-nil s.relays),
  )
  drains (p ∷ queue) s gone on at =
      let u = record s { accepted = queue; relays = s.relays ++ p ∷ [] } in
      before s u [] (s.relays ++ p ∷ queue) ((s.relays ++ p ∷ []) ++ queue)
        (relays_one p queue on at refl refl) (drains queue u gone on refl)
        (append_assoc s.relays (p ∷ []) queue ∙ sym (append-nil (s.relays ++ p ∷ queue)))

module _ (t : Tcp) (laws : TcpLaws t) (ss : SocketSet t) (set_laws : SocketSetLaws t ss) where
  -- Once the actor has ended.
  ends_without_actor :
      (s : System t ss) (sent : List Accepted)
      → IsSafe t ss s sent
      → s.actor ≡ none
      → CanEnd t ss s sent
  ends_without_actor s sent safe gone = elim (Bool-cases s.dispatching) [
    | inl on ↦ subst (CanEnd t ss s) (sym safe.order) (drains t ss s.accepted s gone on refl)
    | inr off ↦
        let (_, empty) = subst (λ d. HasEnded t ss d s.actor s.accepted) off safe.ended in
        (
          s,
          [],
          here,
          gone,
          off,
          sym (append-nil sent ∙ safe.order ∙ ap (◌++◌ s.relays) empty ∙ append-nil s.relays),
        )
  ]

  -- Once the actor can see that it has to stop.
  ends_when_asked :
      (r : Round t ss) (a : Actor t ss) (s : System t ss) (sent : List Accepted)
      → IsRound t ss r
      → IsSafe t ss s sent
      → s.actor ≡ some a
      → can_stop s.handle ≡ true
      → CanEnd t ss s sent
  ends_when_asked r a s sent legal safe at asked =
      let sound = (IsRunning-at t laws ss set_laws s sent safe a at).sound in
      let (b, x, e, _) = turn-IsSound t laws ss set_laws r s.accepted a legal sound in
      let u = record s { actor = none; accepted = s.accepted ++ x.accepted } in
      let on =
        still_dispatching t laws ss set_laws s.dispatching s.actor a s.accepted safe.ended at in
      before t ss s u x.accepted sent (s.relays ++ (s.accepted ++ x.accepted))
        (stops r a b x legal at e asked refl refl)
        (drains t ss (s.accepted ++ x.accepted) u refl on refl)
        (sym (queued t laws ss set_laws sent s.relays s.accepted x.accepted safe.order))

  -- The handle can always make the actor stop.
  ends_with_actor :
      (r : Round t ss) (a : Actor t ss) (s : System t ss) (sent : List Accepted)
      → IsRound t ss r
      → IsSafe t ss s sent
      → s.actor ≡ some a
      → CanEnd t ss s sent
  unfolding stop running
  ends_with_actor r a s sent legal safe at = elim (Bool-cases (can_stop s.handle)) [
    | inl asked ↦ ends_when_asked r a s sent legal safe at asked
    | inr quiet ↦
        let h = record s.handle { sent = suc s.handle.sent } in
        let st : Step t ss s (record s { handle = h }) [] =
          asks_to_stop h (ground arith) (rw at (ground arith)) refl refl in
        before t ss s (record s { handle = h }) [] sent (sent ++ []) st
          (ends_when_asked r a (record s { handle = h }) (sent ++ []) legal
            (Step-IsSafe t laws ss set_laws st safe) at (ground arith))
          refl
  ]

  pub safe-CanEnd :
      (s : System t ss) (sent : List Accepted) (r : Round t ss)
      → IsRound t ss r
      → IsSafe t ss s sent
      → CanEnd t ss s sent
  safe-CanEnd s sent r legal safe = elim (Option-cases s.actor) [
    | inl gone ↦ ends_without_actor s sent safe gone
    | inr (a, at) ↦ ends_with_actor r a s sent legal safe at
  ]
