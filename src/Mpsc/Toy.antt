-- ===== src/Mpsc/Toy.antt =====
-- A concrete channel that meets the laws of Mpsc.antt: a list with its depth and two flags.
use smoltcp_socks.Common.{
  ℕ, ◌≡◌, refl, Bool, true, false, ◌&&◌, List, [], ◌∷◌, ◌++◌, Option, none, some, length, ltb,
  if◌then◌else◌, arith,
}
use smoltcp_socks.Mpsc.{Mpsc, MpscLaws, SameEnds, first, behind}

pub record ToyChannel (A : Type 0) : Type 0 where
  pub queued : List A
  pub depth : ℕ
  pub has_sender : Bool
  pub has_receiver : Bool

module _ {A : Type 0} where
  abbrev has_room : ToyChannel A → Bool
  has_room c = c.has_receiver && ltb (length c.queued) c.depth

  abbrev channel_send : A → ToyChannel A → Bool × ToyChannel A
  channel_send a c =
      if has_room c then (true, record c { queued = c.queued ++ a ∷ [] }) else (false, c)

  abbrev channel_recv : ToyChannel A → Option (Option A × ToyChannel A)
  channel_recv c = elim c.queued [
    | [] ↦ if c.has_sender then none else some (none, c)
    | a ∷ l ↦ some (some a, record c { queued = l })
  ]

  abbrev pub channels : Mpsc A
  channels = record {
    Chan = ToyChannel A;
    channel = λ n. record { queued = []; depth = n; has_sender = true; has_receiver = true };
    try_send = channel_send;
    try_recv = λ c. (first c.queued, record c { queued = behind c.queued });
    recv = channel_recv;
    drop_sender = λ c. record c { has_sender = false };
    drop_receiver = λ c. record c { has_receiver = false; queued = [] };
    queued = λ c. c.queued;
    depth = λ c. c.depth;
    has_sender = λ c. c.has_sender;
    has_receiver = λ c. c.has_receiver;
  }

  send_ends :
      (a : A) (c : ToyChannel A) (b : Bool)
      → has_room c ≡ b
      → SameEnds channels c (channel_send a c).1
  send_ends a c true h = record {
    depth = rw h refl;
    has_sender = rw h refl;
    has_receiver = rw h refl;
  }
  send_ends a c false h = record {
    depth = rw h refl;
    has_sender = rw h refl;
    has_receiver = rw h refl;
  }

  recv_ready :
      (l : List A) (c : ToyChannel A) (a : A)
      → c.queued ≡ l
      → first l ≡ some a
      → channel_recv c ≡ some (some a, record c { queued = behind c.queued })
  recv_ready [] c a e h = cc
  recv_ready (b ∷ l) c a e h = rw e (cc)

  pub channels_laws : MpscLaws channels
  channels_laws = record {
    new_queued = λ n. refl;
    new_depth = λ n. refl;
    new_sender = λ n. refl;
    new_receiver = λ n. refl;
    send_admits = λ a c. ground arith;
    send_queued = λ a c. ground arith;
    send_ends = λ a c. send_ends a c (has_room c) refl;
    recv_first = λ c. refl;
    recv_queued = λ c. refl;
    recv_ends = λ c. record { depth = refl; has_sender = refl; has_receiver = refl };
    recv_ready = λ c a h. recv_ready c.queued c a refl h;
    recv_waits = λ c h. rw h refl;
    sender_queued = λ c. refl;
    sender_depth = λ c. refl;
    sender_dropped = λ c. refl;
    sender_receiver = λ c. refl;
    receiver_queued = λ c. refl;
    receiver_depth = λ c. refl;
    receiver_dropped = λ c. refl;
    receiver_sender = λ c. refl;
  }
