-- ===== src/Netstack/Actor/Ownership.antt =====
-- The sockets of src/netstack/actor.rs's `NetstackActor`: each socket of the set is a listener or the
-- socket of one connection, and no handle dangles.
use smoltcp_socks.Common.{
  ℕ, zero, suc, ◌+◌, ◌≡◌, ◌≤◌, refl, ap, ◌∙◌, ◌==◌, if◌then◌else◌, Bool, List, [], ◌∷◌, ◌++◌,
  Option, none, some, arith, length, Bool-cases, Option-cases, inl, inr,
}
use smoltcp_socks.Netstack.Vconn
use smoltcp_socks.Netstack.Vconn.{ConnMeta, VConn}
use smoltcp_socks.Netstack.{new_tcp_socket-listen}
use smoltcp_socks.Netstack.Socket.{Tcp, TcpLaws, SocketSet, SocketSetLaws}
use smoltcp_socks.Netstack.Conn
use smoltcp_socks.Netstack.Conn.{ConnState, Event, service}
use smoltcp_socks.Netstack.Actor.{
  Verdict, keep, offer, discard, insert, Actor, Accepting, add_listening, add_wildcard_listener,
  replace_listener, hand_off, offer_conn, dispatch, accept_slot, accept_slots, try_accept, verdict,
  listener_pool_size, add_listeners, with_channels, tcp_rx_buf, tcp_tx_buf,
}

abbrev pub hit : ℕ → ℕ → ℕ
hit i j = if i == j then 1 else 0

abbrev pub count : ℕ → List ℕ → ℕ
count j [] = 0
count j (h ∷ l) = hit h j + count j l

abbrev pub count_keys : ℕ → List (ℕ × ConnState) → ℕ
count_keys j [] = 0
count_keys j ((h, c) ∷ m) = hit h j + count_keys j m

abbrev pub present {ℓ} : {A : Type ℓ} → Option A → ℕ
present none = 0
present (some x) = 1

count_keys-insert :
    (j h : ℕ) (c : ConnState) (m : List (ℕ × ConnState))
    → count_keys h m ≡ 0
    → count_keys j (insert h c m) ≡ hit h j + count_keys j m
unfolding insert
count_keys-insert j h c [] e = omega arith
count_keys-insert j h c ((i, d) ∷ m) e = ground (arith, count_keys-insert j h c m)

module _ (t : Tcp) (ss : SocketSet t) where
  -- The handles that `k` counts and the keys of `m` are the handles of the set, each once.
  abbrev pub Owned : (ℕ → ℕ) → List (ℕ × ConnState) → ss.Sockets → Type 0
  Owned k m p = (j : ℕ) → k j + count_keys j m ≡ present (ss.get p j)

  -- Every socket of the set is owned by one listener slot or one connection, every handle that the
  -- actor holds is in the set, and the pool of listeners is full.
  pub record IsSound (a : Actor t ss) : Type 0 where
    pub owned : Owned (λ j. count j a.listeners) a.conns a.sockets
    pub pool : length a.listeners ≡ listener_pool_size

module _ (t : Tcp) (laws : TcpLaws t) (ss : SocketSet t) (set_laws : SocketSetLaws t ss) where
  pub present_get :
      (p : ss.Sockets) (h : ℕ) → 1 ≤ present (ss.get p h) → (s : t.Socket) × (ss.get p h ≡ some s)
  present_get p h e = elim (Option-cases (ss.get p h)) [
    | inl n ↦ absurd (omega (arith, ap present n))
    | inr (s, f) ↦ (s, f)
  ]

  -- A new listener takes a handle that nobody owned.
  pub hit_self : (h : ℕ) → hit h h ≡ 1
  hit_self h = ground arith

  present_le_one {ℓ} : {A : Type ℓ} (o : Option A) → present o ≤ 1
  present_le_one none = omega arith
  present_le_one (some x) = omega arith

  -- The handle of a slot is not the key of a connection.
  key_unused :
      (h : ℕ) (k : ℕ → ℕ) (m : List (ℕ × ConnState)) (p : ss.Sockets)
      → Owned t ss (λ j. hit h j + k j) m p
      → count_keys h m ≡ 0
  key_unused h k m p o = omega (arith, o h, hit_self h, present_le_one (ss.get p h))

  add_wildcard_listener-Owned :
      (k : ℕ → ℕ) (m : List (ℕ × ConnState)) (p : ss.Sockets)
      → Owned t ss k m p
      → (h : ℕ) × (q : ss.Sockets) × (add_wildcard_listener t ss p ≡ some (h, q))
        × (ss.get p h ≡ none)
        × Owned t ss (λ j. hit h j + k j) m q
  unfolding add_wildcard_listener add_listening
  add_wildcard_listener-Owned k m p o =
      let (s, e, _) = new_tcp_socket-listen t laws tcp_rx_buf tcp_tx_buf in
      let (h, q) = ss.add p s in
      (
        h,
        q,
        ap (add_listening t ss p) e,
        set_laws.add_fresh p s,
        λ j. ground (arith, o j, set_laws.get-add p s j, set_laws.add_fresh p s),
      )

  -- Taking a socket out of the set, as the code does it: abort, then remove.
  pub remove-Owned :
      (k : ℕ → ℕ) (m : List (ℕ × ConnState)) (p : ss.Sockets) (h : ℕ) (old new : t.Socket)
      → Owned t ss (λ j. hit h j + k j) m p
      → ss.get p h ≡ some old
      → (q : ss.Sockets) × (ss.remove (ss.put p h new) h ≡ some q) × Owned t ss k m q
  remove-Owned k m p h old new o e =
      let at_h : ss.get (ss.put p h new) h ≡ some new =
        ground (arith, set_laws.get-put p h old new h e) in
      let (q, removed, rest) = set_laws.remove_live (ss.put p h new) h new at_h in
      (q, removed, λ j. ground (arith, o j, rest j, set_laws.get-put p h old new j e))

  -- A slot is served without a panic, and its new handle is owned in place of the old.
  abbrev Served : (ℕ → ℕ) → Option (ℕ × Accepting t ss) → Type 0
  Served k r =
      (h : ℕ) × (a : Accepting t ss) × (r ≡ some (h, a))
      × Owned t ss (λ j. hit h j + k j) a.conns a.sockets

  replace_listener-Owned :
      (k : ℕ → ℕ) (a : Accepting t ss) (h : ℕ) (socket : t.Socket)
      → Owned t ss (λ j. hit h j + k j) a.conns a.sockets
      → ss.get a.sockets h ≡ some socket
      → Served k (replace_listener t ss a h socket)
  unfolding replace_listener
  replace_listener-Owned k a h socket o e =
      let (q, removed, left) = remove-Owned k a.conns a.sockets h socket (t.abort socket) o e in
      let (h', p, added, _, owned) = add_wildcard_listener-Owned k a.conns q left in
      (h', record a { sockets = p }, rw (removed, added), owned)

  hand_off-Owned :
      (k : ℕ → ℕ) (a : Accepting t ss) (h : ℕ) (meta : ConnMeta)
      → Owned t ss (λ j. hit h j + k j) a.conns a.sockets
      → Served k (hand_off t ss a h meta)
  unfolding hand_off
  hand_off-Owned k a h meta o =
      let (h', p, added, _, owned) =
        add_wildcard_listener-Owned (λ j. hit h j + k j) a.conns a.sockets o in
      let fresh_key : count_keys h a.conns ≡ 0 = key_unused h k a.conns a.sockets o in
      (
        h',
        record {
          sockets = p;
          conns = insert h (Conn.new a.next_channel) a.conns;
          next_channel = suc a.next_channel;
          accepted = a.accepted ++ (Vconn.new meta a.next_channel, meta) ∷ [];
        },
        rw added refl,
        λ j.
            omega
              (arith, owned j, count_keys-insert j h (Conn.new a.next_channel) a.conns fresh_key),
      )

  offer_conn-Owned :
      (admits : ℕ → Bool) (k : ℕ → ℕ) (a : Accepting t ss) (h : ℕ) (socket : t.Socket)
      (meta : Option ConnMeta)
      → Owned t ss (λ j. hit h j + k j) a.conns a.sockets
      → ss.get a.sockets h ≡ some socket
      → Served k (offer_conn t ss admits a h socket meta)
  unfolding offer_conn
  offer_conn-Owned admits k a h socket none o e = replace_listener-Owned k a h socket o e
  offer_conn-Owned admits k a h socket (some meta) o e = elim (Bool-cases (admits a.next_channel)) [
    | inl taken ↦ rw taken (hand_off-Owned k a h meta o)
    | inr full ↦
        rw full
          (replace_listener-Owned k (record a { next_channel = suc a.next_channel }) h socket o e)
  ]

  dispatch-Owned :
      (admits : ℕ → Bool) (k : ℕ → ℕ) (a : Accepting t ss) (h : ℕ) (socket : t.Socket) (v : Verdict)
      → Owned t ss (λ j. hit h j + k j) a.conns a.sockets
      → ss.get a.sockets h ≡ some socket
      → Served k (dispatch t ss admits a h socket v)
  unfolding dispatch
  dispatch-Owned admits k a h socket keep o e = (h, a, refl, o)
  dispatch-Owned admits k a h socket offer o e = offer_conn-Owned admits k a h socket _ o e
  dispatch-Owned admits k a h socket discard o e = replace_listener-Owned k a h socket o e

  accept_slot-Owned :
      (admits : ℕ → Bool) (k : ℕ → ℕ) (a : Accepting t ss) (h : ℕ)
      → Owned t ss (λ j. hit h j + k j) a.conns a.sockets
      → Served k (accept_slot t ss admits a h)
  unfolding accept_slot
  accept_slot-Owned admits k a h o =
      let (socket, e) = present_get a.sockets h (omega (arith, o h, hit_self h)) in
      let (h', a', f, owned) = dispatch-Owned admits k a h socket (verdict (t.state socket)) o e in
      (h', a', rw e f, owned)

  accept_slots-Owned :
      (admits : ℕ → Bool) (k : ℕ → ℕ) (a : Accepting t ss) (slots : List ℕ)
      → Owned t ss (λ j. count j slots + k j) a.conns a.sockets
      → (slots' : List ℕ) × (a' : Accepting t ss) × (accept_slots t ss admits a slots
          ≡ some (slots', a'))
        × Owned t ss (λ j. count j slots' + k j) a'.conns a'.sockets
        × (length slots' ≡ length slots)
  unfolding accept_slots
  accept_slots-Owned admits k a [] o = ([], a, refl, λ j. omega (arith, o j), refl)
  accept_slots-Owned admits k a (h ∷ slots) o =
      let (h', a1, e1, o1) =
        accept_slot-Owned admits (λ j. count j slots + k j) a h (λ j. omega (arith, o j)) in
      let (slots', a2, e2, o2, l2) =
        accept_slots-Owned admits (λ j. hit h' j + k j) a1 slots (λ j. omega (arith, o1 j)) in
      (h' ∷ slots', a2, rw e1 (rw e2 refl), λ j. omega (arith, o2 j), omega (arith, l2))

  abbrev start : Actor t ss → Accepting t ss
  start a = record {
    sockets = a.sockets;
    conns = a.conns;
    next_channel = a.next_channel;
    accepted = [];
  }

  -- `try_accept` never panics on a sound actor, whatever states the sockets are in and whichever
  -- connections the queue admits, and leaves it sound: every slot holds a listener again, and each
  -- accepted connection has its socket to itself.
  pub try_accept-IsSound :
      (admits : ℕ → Bool) (a : Actor t ss)
      → IsSound t ss a
      → (a' : Actor t ss) × (sent : List (VConn × ConnMeta)) × (try_accept t ss admits a
          ≡ some (a', sent))
        × IsSound t ss a'
  unfolding try_accept
  try_accept-IsSound admits a sound =
      let (slots, b, e, owned, same) =
        accept_slots-Owned admits (λ j. 0) (start a) a.listeners
          (λ j. omega (arith, sound.owned j)) in
      (
        record {
          sockets = b.sockets;
          conns = b.conns;
          listeners = slots;
          next_channel = b.next_channel;
        },
        b.accepted,
        rw e refl,
        record { owned = λ j. omega (arith, owned j); pool = same ∙ sound.pool },
      )

  add_listeners-Owned :
      (n : ℕ) (k : ℕ → ℕ) (p : ss.Sockets)
      → Owned t ss k [] p
      → (l : List ℕ) × (q : ss.Sockets) × (add_listeners t ss n p ≡ some (l, q))
        × Owned t ss (λ j. count j l + k j) [] q
        × (length l ≡ n)
  unfolding add_listeners
  add_listeners-Owned zero k p o = ([], p, refl, λ j. omega (arith, o j), refl)
  add_listeners-Owned (suc n) k p o =
      let (h, p1, e1, _, o1) = add_wildcard_listener-Owned k [] p o in
      let (l, q, e2, o2, len) = add_listeners-Owned n (λ j. hit h j + k j) p1 o1 in
      (h ∷ l, q, rw e1 (rw e2 refl), λ j. omega (arith, o2 j), omega (arith, len))

  -- The actor starts sound, with all its listeners and no connection.
  pub with_channels-IsSound :
      (a : Actor t ss) × (with_channels t ss ≡ some a) × IsSound t ss a × (a.conns ≡ [])
  unfolding with_channels
  with_channels-IsSound =
      let (l, q, e, owned, len) =
        add_listeners-Owned listener_pool_size (λ j. 0) ss.empty
          (λ j. omega (arith, ap present (set_laws.get-empty j))) in
      (
        record { sockets = q; conns = []; listeners = l; next_channel = 0 },
        rw e refl,
        record { owned = λ j. omega (arith, owned j); pool = len },
        refl,
      )
