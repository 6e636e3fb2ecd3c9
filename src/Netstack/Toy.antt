-- ===== src/Netstack/Toy.antt =====
-- A concrete socket and socket set that meet the laws of Netstack/Socket.antt: two buffers with two
-- flags, and an association list. The tests run the code over them.
use smoltcp_socks.Common.{
  ℕ, zero, suc, ◌+◌, ◌-◌, ◌≤◌, ◌≡◌, refl, ap, ◌==◌, if◌then◌else◌, ltb, Bool, true, false, not,
  ◌&&◌, ◌||◌, List, [], ◌∷◌, ◌++◌, Option, none, some, Bytes, min, length, take, drop,
  take-append-drop, is_empty, Result, ok, err, arith,
}
use smoltcp_socks.Netstack.Socket.{
  Tcp, TcpLaws, SocketSet, SocketSetLaws, State, listen, Endpoint, RecvError, finished,
}

pub record Toy : Type 0 where
  pub state : State
  pub local : Option Endpoint
  pub remote : Option Endpoint
  pub rx : Bytes
  pub tx : Bytes
  pub room : ℕ
  pub receiving : Bool
  pub sending : Bool

abbrev toy_recv : Toy → ℕ → Result Bytes RecvError × Toy
toy_recv s n =
    if s.receiving || not (is_empty s.rx)
    then (ok (take n s.rx), record s { rx = drop n s.rx })
    else (err finished, s)

abbrev toy_send : Toy → Bytes → Option ℕ × Toy
toy_send s d =
    if s.sending
    then (
      some (min (length d) s.room),
      record s {
        tx = s.tx ++ take (min (length d) s.room) d;
        room = s.room - min (length d) s.room;
      },
    )
    else (none, s)

abbrev pub fresh_socket : ℕ → Toy
fresh_socket room = record {
  state = listen;
  local = none;
  remote = none;
  rx = [];
  tx = [];
  room = room;
  receiving = false;
  sending = false;
}

abbrev pub toy : Tcp
toy = record {
  Socket = Toy;
  SocketBuffer = Unit {0};
  new_buffer = λ storage. tt;
  new_socket = λ rx tx. fresh_socket 65536;
  listen_any = λ s. some s;
  state = λ s. s.state;
  local_endpoint = λ s. s.local;
  remote_endpoint = λ s. s.remote;
  may_recv = λ s. s.receiving || not (is_empty s.rx);
  can_recv = λ s. not (is_empty s.rx);
  may_send = λ s. s.sending;
  can_send = λ s. s.sending && ltb 0 s.room;
  recv_queue = λ s. length s.rx;
  recv_slice = toy_recv;
  send_slice = toy_send;
  close = λ s. record s { sending = false };
  abort = λ s. record s { sending = false; receiving = false };
  unread = λ s. s.rx;
  queued = λ s. s.tx;
}

length-take-le : (n : ℕ) (xs : Bytes) → length (take n xs) ≤ n
length-take-le zero xs = omega arith
length-take-le (suc n) [] = omega arith
length-take-le (suc n) (x ∷ xs) = omega (arith, length-take-le n xs)

take_some : (n : ℕ) (xs : Bytes) → 1 ≤ n → not (is_empty xs) ≡ true → 1 ≤ length (take n xs)
take_some zero xs h e = absurd (omega arith)
take_some (suc n) [] h e = cc
take_some (suc n) (x ∷ xs) h e = omega arith

pub toy_laws : TcpLaws toy
toy_laws = record {
  listen_fresh = λ rx tx. (fresh_socket 65536, refl, refl);
  queue_length = λ s. refl;
  can_recv_some = λ s h. ground arith;
  recv_takes = λ s n d h. ground (arith, length-take-le n s.rx, take-append-drop n s.rx);
  recv_progress = λ s n h k. (take n s.rx, ground arith, take_some n s.rx k h);
  recv_refused = λ s n e h. ground arith;
  recv_closed = λ s n h. (finished, ground arith);
  recv_keeps_send = λ s n. ground arith;
  send_takes = λ s d n h. ground arith;
  send_progress = λ s d h k. (min (length d) s.room, ground arith, ground arith);
  send_refused = λ s d h. ground arith;
  send_closed = λ s d h. ground arith;
  send_keeps_recv = λ s d. ground arith;
  close_unread = λ s. refl;
  close_ends_send = λ s. refl;
  close_queued = λ s. refl;
  abort_unread = λ s. refl;
  abort_recv = λ s. refl;
  abort_ends_send = λ s. refl;
  abort_queued = λ s. refl;
}

abbrev lookup : List (ℕ × Toy) → ℕ → Option Toy
lookup [] j = none
lookup ((h, s) ∷ m) j = if h == j then some s else lookup m j

abbrev erase : ℕ → List (ℕ × Toy) → List (ℕ × Toy)
erase h [] = []
erase h ((j, s) ∷ m) = if j == h then erase h m else (j, s) ∷ erase h m

-- A number above all handles.
abbrev above : List (ℕ × Toy) → ℕ
above [] = 0
above ((h, s) ∷ m) = suc (h + above m)

abbrev remove_if {ℓ} : {A : Type ℓ} → Option Toy → A → Option A
remove_if none q = none
remove_if (some s) q = some q

abbrev pub toy_set : SocketSet toy
toy_set = record {
  Sockets = List (ℕ × Toy);
  empty = [];
  get = lookup;
  put = λ p h s. (h, s) ∷ p;
  add = λ p s. (above p, (above p, s) ∷ p);
  remove = λ p h. remove_if (lookup p h) (erase h p);
}

lookup-above : (m : List (ℕ × Toy)) (n : ℕ) → above m ≤ n → lookup m n ≡ none
lookup-above [] n h = refl
lookup-above ((j, s) ∷ m) n h = ground (arith, lookup-above m n)

lookup-erase :
    (h : ℕ) (m : List (ℕ × Toy)) (j : ℕ)
    → lookup (erase h m) j ≡ (if h == j then none else lookup m j)
lookup-erase h [] j = ground arith
lookup-erase h ((i, s) ∷ m) j = ground (arith, lookup-erase h m j)

pub toy_set_laws : SocketSetLaws toy toy_set
toy_set_laws = record {
  get-empty = λ j. refl;
  get-put = λ p h old s j e. refl;
  add_fresh = λ p s. lookup-above p (above p) (omega arith);
  get-add = λ p s j. refl;
  remove_live = λ p h old e. (erase h p, ap (λ o. remove_if o (erase h p)) e, lookup-erase h p);
}
