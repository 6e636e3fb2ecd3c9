-- ===== src/Netstack/Actor/Channels.antt =====
-- The command channels of src/netstack/actor.rs's `NetstackActor`: each connection that a round accepts
-- gets a channel of its own, and a connection keeps it.
use smoltcp_socks.Common.{
  ℕ, suc, ◌+◌, ◌≤◌, ◌<◌, ◌≡◌, refl, ap, sym, subst, ◌∙◌, Bool, true, List, [], ◌∷◌, ◌++◌, Option,
  none, some, arith, length, All, All-append, append_assoc, append-nil,
}
use smoltcp_socks.Netstack.Vconn.{ConnMeta, VConn}
use smoltcp_socks.Netstack.Socket.{Tcp, SocketSet}
use smoltcp_socks.Netstack.Conn.{ConnState}
use smoltcp_socks.Netstack.Actor.Ownership.{hit}
use smoltcp_socks.Netstack.Actor.{insert, Accepting, ◌>>=◌}

abbrev pub Accepted : Type 0
Accepted = VConn × ConnMeta

-- How many connections of the map listen to a channel, and how many handles of a list send to it.
abbrev pub listening : ℕ → List (ℕ × ConnState) → ℕ
listening k [] = 0
listening k ((h, c) ∷ m) = hit c.cmd_rx k + listening k m

abbrev pub sending : ℕ → List Accepted → ℕ
sending k [] = 0
sending k ((v, meta) ∷ l) = hit v.cmd k + sending k l

-- The channels of the list are new, from `lo` on, below `hi`, and no two are the same; and each handle
-- carries the ends of its connection.
abbrev pub Ascending : ℕ → List Accepted → ℕ → Type 0
Ascending lo [] hi = lo ≤ hi
Ascending lo ((v, meta) ∷ l) hi = (lo ≤ v.cmd) × (v.meta ≡ meta) × Ascending (suc v.cmd) l hi

pub Ascending-le : (lo hi : ℕ) (l : List Accepted) → Ascending lo l hi → lo ≤ hi
Ascending-le lo hi [] h = h
Ascending-le lo hi ((v, meta) ∷ l) (p, e, h) = omega (arith, Ascending-le (suc v.cmd) hi l h)

pub Ascending-append :
    (lo mid hi : ℕ) (k l : List Accepted)
    → Ascending lo k mid
    → Ascending mid l hi
    → Ascending lo (k ++ l) hi
Ascending-append lo mid hi [] [] p q = omega arith
Ascending-append lo mid hi [] ((v, meta) ∷ l) p (q, e, h) = (omega arith, e, h)
Ascending-append lo mid hi ((v, meta) ∷ k) l (p, e, h) q =
    (p, e, Ascending-append (suc v.cmd) mid hi k l h q)

-- No channel below `lo` occurs.
sending-below : (lo hi k : ℕ) (l : List Accepted) → Ascending lo l hi → k < lo → sending k l ≡ 0
sending-below lo hi k [] h b = refl
sending-below lo hi k ((v, meta) ∷ l) (p, e, h) b =
    ground (arith, sending-below (suc v.cmd) hi k l h)

pub sending-le-one : (lo hi k : ℕ) (l : List Accepted) → Ascending lo l hi → sending k l ≤ 1
sending-le-one lo hi k [] h = omega arith
sending-le-one lo hi k ((v, meta) ∷ l) (p, e, h) =
    ground (arith, sending-le-one (suc v.cmd) hi k l h, sending-below (suc v.cmd) hi k l h)

pub sending-append : (k : ℕ) (l m : List Accepted) → sending k (l ++ m) ≡ sending k l + sending k m
sending-append k [] m = omega arith
sending-append k ((v, meta) ∷ l) m = omega (arith, sending-append k l m)

-- As many channels as there are numbers.
pub length-Ascending :
    (lo hi top : ℕ) (l : List Accepted)
    → Ascending lo l hi
    → All (λ (p : Accepted). p.0.cmd < top) l
    → lo ≤ top
    → length l + lo ≤ top
length-Ascending lo hi top [] h b le = omega arith
length-Ascending lo hi top ((v, meta) ∷ l) (p, e, h) b le =
    omega (arith, length-Ascending (suc v.cmd) hi top l h b.1, b.0)

pub listening-insert :
    (k h : ℕ) (c : ConnState) (m : List (ℕ × ConnState))
    → listening k (insert h c m) ≤ hit c.cmd_rx k + listening k m
unfolding insert
listening-insert k h c [] = omega arith
listening-insert k h c ((i, d) ∷ m) = ground (arith, listening-insert k h c m)

pub listening-append :
    (k : ℕ) (l m : List (ℕ × ConnState)) → listening k (l ++ m) ≡ listening k l + listening k m
listening-append k [] m = omega arith
listening-append k ((h, c) ∷ l) m = omega (arith, listening-append k l m)

-- A property of what an operation returns, if it does not panic.
abbrev pub Returning {ℓ κ} : {A : Type ℓ} → (A → Type κ) → Option A → Type κ
Returning P none = Unit
Returning P (some a) = P a

pub Returning-bind {ℓ κ μ ν} :
    {A : Type ℓ} {B : Type κ} (P : A → Type μ) (Q : B → Type ν) (o : Option A) (f : A → Option B)
    → Returning P o
    → ((a : A) → P a → Returning Q (f a))
    → Returning Q (o >>= f)
Returning-bind P Q none f p q = tt
Returning-bind P Q (some a) f p q = q a p

pub Returning-eq-some {ℓ κ} :
    {A : Type ℓ} (P : A → Type κ) (o : Option A) (a : A) → Returning P o → o ≡ some a → P a
Returning-eq-some P o a p e = subst (Returning P) e p

pub Returning-same {ℓ} : {A : Type ℓ} (o : Option A) → Returning (λ a. o ≡ some a) o
Returning-same none = tt
Returning-same (some a) = refl

module _ (t : Tcp) (ss : SocketSet t) (admits : ℕ → Bool) where
  -- From `a` to `b` the connections `sent` were handed off, each admitted, on a channel of its own.
  pub record Sends (a b : Accepting t ss) : Type 0 where
    pub sent : List Accepted
    pub log : b.accepted ≡ a.accepted ++ sent
    pub fresh : Ascending a.next_channel sent b.next_channel
    pub admitted : All (λ (p : Accepted). admits p.0.cmd ≡ true) sent
    pub matched : (k : ℕ) → listening k b.conns ≤ listening k a.conns + sending k sent

  pub Sends-refl : (a : Accepting t ss) → Sends a a
  Sends-refl a = record {
    sent = [];
    log = sym (append-nil a.accepted);
    fresh = omega arith;
    admitted = tt;
    matched = λ k. omega arith;
  }

  pub Sends-trans : {a b c : Accepting t ss} → Sends a b → Sends b c → Sends a c
  Sends-trans {a} {b} {c} p q = record {
    sent = p.sent ++ q.sent;
    log = q.log ∙ ap (λ l. l ++ q.sent) p.log ∙ append_assoc a.accepted p.sent q.sent;
    fresh =
        Ascending-append a.next_channel b.next_channel c.next_channel p.sent q.sent p.fresh q.fresh;
    admitted = All-append _ p.sent q.sent p.admitted q.admitted;
    matched = λ k. omega (arith, p.matched k, q.matched k, sending-append k p.sent q.sent);
  }
