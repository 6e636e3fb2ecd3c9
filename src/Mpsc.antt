-- ===== src/Mpsc.antt =====
-- The bounded channel of tokio (`tokio::sync::mpsc`), which the repository does not hold: its
-- operations as the code calls them, and the documented behaviour that the code relies on. A channel
-- has one value for both of its ends.
pub mod Toy
use smoltcp_socks.Common.{
  ℕ, ◌≡◌, Bool, true, false, ◌&&◌, List, [], ◌∷◌, ◌++◌, Option, none, some, length, ltb,
  if◌then◌else◌,
}

-- `try_send` says whether the value went in, `try_recv` gives the value if there is one. `recv` gives
-- `none` while it waits, and `some none` when nothing can come any more. `drop_sender` and
-- `drop_receiver` are the end of the last sender, and of the receiver.
pub record Mpsc (A : Type 0) : Type 1 where
  pub Chan : Type 0
  pub channel : ℕ → Chan
  pub try_send : A → Chan → Bool × Chan
  pub try_recv : Chan → Option A × Chan
  pub recv : Chan → Option (Option A × Chan)
  pub drop_sender : Chan → Chan
  pub drop_receiver : Chan → Chan
  pub queued : Chan → List A
  pub depth : Chan → ℕ
  pub has_sender : Chan → Bool
  pub has_receiver : Chan → Bool

-- The value that a receiver takes next, and those behind it.
abbrev pub first : {A : Type 0} → List A → Option A
first [] = none
first (x ∷ xs) = some x

abbrev pub behind : {A : Type 0} → List A → List A
behind [] = []
behind (x ∷ xs) = xs

-- The two channels differ in what is queued alone.
pub record SameEnds {A : Type 0} (m : Mpsc A) (c d : m.Chan) : Type 0 where
  pub depth : m.depth d ≡ m.depth c
  pub has_sender : m.has_sender d ≡ m.has_sender c
  pub has_receiver : m.has_receiver d ≡ m.has_receiver c

-- There is room, and someone to receive.
abbrev pub admits : {A : Type 0} (m : Mpsc A) → m.Chan → Bool
admits m c = m.has_receiver c && ltb (length (m.queued c)) (m.depth c)

pub record MpscLaws {A : Type 0} (m : Mpsc A) : Type 0 where
  pub new_queued : (n : ℕ) → m.queued (m.channel n) ≡ []
  pub new_depth : (n : ℕ) → m.depth (m.channel n) ≡ n
  pub new_sender : (n : ℕ) → m.has_sender (m.channel n) ≡ true
  pub new_receiver : (n : ℕ) → m.has_receiver (m.channel n) ≡ true
  pub send_admits : (a : A) (c : m.Chan) → (m.try_send a c).0 ≡ admits m c
  pub send_queued :
      (a : A) (c : m.Chan)
      → m.queued (m.try_send a c).1
        ≡ (if (m.try_send a c).0 then m.queued c ++ a ∷ [] else m.queued c)
  pub send_ends : (a : A) (c : m.Chan) → SameEnds m c (m.try_send a c).1
  pub recv_first : (c : m.Chan) → (m.try_recv c).0 ≡ first (m.queued c)
  pub recv_queued : (c : m.Chan) → m.queued (m.try_recv c).1 ≡ behind (m.queued c)
  pub recv_ends : (c : m.Chan) → SameEnds m c (m.try_recv c).1
  pub recv_ready :
      (c : m.Chan) (a : A)
      → first (m.queued c) ≡ some a
      → m.recv c ≡ some (some a, (m.try_recv c).1)
  pub recv_waits :
      (c : m.Chan) → m.queued c ≡ [] → m.recv c ≡ (if m.has_sender c then none else some (none, c))
  pub sender_queued : (c : m.Chan) → m.queued (m.drop_sender c) ≡ m.queued c
  pub sender_depth : (c : m.Chan) → m.depth (m.drop_sender c) ≡ m.depth c
  pub sender_dropped : (c : m.Chan) → m.has_sender (m.drop_sender c) ≡ false
  pub sender_receiver : (c : m.Chan) → m.has_receiver (m.drop_sender c) ≡ m.has_receiver c
  pub receiver_queued : (c : m.Chan) → m.queued (m.drop_receiver c) ≡ []
  pub receiver_depth : (c : m.Chan) → m.depth (m.drop_receiver c) ≡ m.depth c
  pub receiver_dropped : (c : m.Chan) → m.has_receiver (m.drop_receiver c) ≡ false
  pub receiver_sender : (c : m.Chan) → m.has_sender (m.drop_receiver c) ≡ m.has_sender c
