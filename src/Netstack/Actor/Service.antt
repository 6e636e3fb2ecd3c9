-- ===== src/Netstack/Actor/Service.antt =====
-- src/netstack/actor.rs's `service_commands` keeps the actor sound.
use smoltcp_socks.Common.{
  ℕ, ◌+◌, ◌≡◌, refl, ◌&&◌, List, [], ◌∷◌, ◌++◌, Option, some, arith, Bool-cases, inl, inr,
}
use smoltcp_socks.Netstack.Socket.{Tcp, TcpLaws, SocketSet, SocketSetLaws}
use smoltcp_socks.Netstack.Conn.{ConnState, Event, Out, fail_pending}
use smoltcp_socks.Netstack.Actor.Ownership.{
  hit, count, count_keys, Owned, IsSound, remove-Owned, present_get, hit_self,
}
use smoltcp_socks.Netstack.Actor.{
  Inbox, Actor, Retained, settle_conn, service_conn, service_conns, service_commands,
}

count_keys-append :
    (j : ℕ) (k m : List (ℕ × ConnState)) → count_keys j (k ++ m) ≡ count_keys j k + count_keys j m
count_keys-append j [] m = omega arith
count_keys-append j ((h, c) ∷ k) m = omega (arith, count_keys-append j k m)

module _ (t : Tcp) (laws : TcpLaws t) (ss : SocketSet t) (set_laws : SocketSetLaws t ss) where
  -- A connection is served without a panic; what is retained of it is owned.
  abbrev Retains : (ℕ → ℕ) → List (ℕ × ConnState) → Option (Retained t ss) → Type 0
  Retains k m r =
      (out : Retained t ss) × (r ≡ some out) × Owned t ss (λ j. count_keys j out.0 + k j) m out.1

  settle_conn-Owned :
      (inbox : Inbox) (k : ℕ → ℕ) (m : List (ℕ × ConnState)) (p : ss.Sockets) (h : ℕ)
      (old : t.Socket) (o : Out t)
      → Owned t ss (λ j. hit h j + k j) m p
      → ss.get p h ≡ some old
      → Retains k m (settle_conn t ss inbox p h o)
  unfolding settle_conn
  settle_conn-Owned inbox k m p h old (c, socket, log) o e =
      elim (Bool-cases (inbox.is_closed && inbox.is_empty)) [
        | inl dead ↦
            let (q, removed, left) =
              remove-Owned t laws ss set_laws k m p h old (t.abort socket) o e in
            rw (dead, removed)
              (([], q, log ++ (fail_pending c).1), refl, λ j. omega (arith, left j))
        | inr alive ↦ rw alive (
          ((h, c) ∷ [], ss.put p h socket, log),
          refl,
          λ j. ground (arith, o j, set_laws.get-put p h old socket j e),
        )
      ]

  service_conn-Owned :
      (inbox : ℕ → Inbox) (k : ℕ → ℕ) (m : List (ℕ × ConnState)) (p : ss.Sockets) (h : ℕ)
      (c : ConnState)
      → Owned t ss (λ j. hit h j + k j) m p
      → Retains k m (service_conn t ss inbox p h c)
  unfolding service_conn
  service_conn-Owned inbox k m p h c o =
      let (socket, e) =
        present_get t laws ss set_laws p h (omega (arith, o h, hit_self t laws ss set_laws h)) in
      rw e (settle_conn-Owned (inbox c.cmd_rx) k m p h socket _ o e)

  service_conns-Owned :
      (inbox : ℕ → Inbox) (k : ℕ → ℕ) (m : List (ℕ × ConnState)) (p : ss.Sockets)
      → Owned t ss k m p
      → Retains k [] (service_conns t ss inbox p m)
  unfolding service_conns
  service_conns-Owned inbox k [] p o = (([], p, []), refl, λ j. omega (arith, o j))
  service_conns-Owned inbox k ((h, c) ∷ m) p o =
      let (one, e1, o1) = service_conn-Owned inbox k m p h c (λ j. omega (arith, o j)) in
      let (rest, e2, o2) = service_conns-Owned inbox (λ j. count_keys j one.0 + k j) m one.1 o1 in
      (
        (one.0 ++ rest.0, rest.1, one.2 ++ rest.2),
        rw e1 (rw e2 refl),
        λ j. omega (arith, o2 j, count_keys-append j one.0 rest.0),
      )

  -- `service_commands` never panics on a sound actor, whatever the relays have sent or closed, and
  -- leaves it sound: the socket of each connection that is dropped is removed from the set, and no
  -- other.
  pub service_commands-IsSound :
      (inbox : ℕ → Inbox) (a : Actor t ss)
      → IsSound t ss a
      → (a' : Actor t ss) × (log : List Event) × (service_commands t ss inbox a ≡ some (a', log))
        × IsSound t ss a'
  unfolding service_commands
  service_commands-IsSound inbox a sound =
      let (r, e, o) =
        service_conns-Owned inbox (λ j. count j a.listeners) a.conns a.sockets sound.owned in
      (
        record a { sockets = r.1; conns = r.0 },
        r.2,
        rw e refl,
        record { owned = λ j. omega (arith, o j); pool = sound.pool },
      )
