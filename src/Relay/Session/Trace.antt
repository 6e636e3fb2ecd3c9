-- ===== src/Relay/Session/Trace.antt =====
-- The rounds of the loops of src/relay.rs that a run of Relay/Session/Steps.antt goes through: what
-- each call came to in it, in the order of the steps.
use smoltcp_socks.Common.{
  ℕ, true, false, List, [], ◌∷◌, ◌++◌, Bytes, Option, none, some, Result, ok, err, ◌≡◌, refl, ap,
}
use smoltcp_socks.Netstack.Vconn.{ConnCmd, VConnError, actor_gone}
use smoltcp_socks.Netstack.Socket.{Tcp}
use smoltcp_socks.Relay.{UpRound, DownRound}
use smoltcp_socks.Relay.Session.{Session}
use smoltcp_socks.Relay.Session.Steps.{
  Call, calls_read, calls_write, calls_close_write, calls_close, Step, Reach, here, next,
  call_fails, gets_read, writes_upstream, upstream_fails, reads_upstream, gets_write,
  gets_close_write,
}

-- A read that ends the loop is a round; one with bytes is a round once they are written.
abbrev pub after_read : Result Bytes VConnError → List UpRound → List UpRound
after_read (err e) l = l ++ record { read = err e; write_ok = true } ∷ []
after_read (ok []) l = l ++ record { read = ok []; write_ok = true } ∷ []
after_read (ok (c ∷ b)) l = l

-- A read that fails or gives bytes begins a round; the end of the stream is one once `close_write` has
-- returned.
abbrev pub after_source : Option Bytes → List DownRound → List DownRound
after_source none l = l ++ record { read = none; writes = [] } ∷ []
after_source (some []) l = l
after_source (some (c ∷ b)) l = l ++ record { read = some (c ∷ b); writes = [] } ∷ []

abbrev pub half_closes : List DownRound → List DownRound
half_closes l = l ++ record { read = some []; writes = [] } ∷ []

-- A write belongs to the round that was begun last.
abbrev pub push_write : Result ℕ VConnError → List DownRound → List DownRound
push_write r [] = []
push_write r (d ∷ []) = record { read = d.read; writes = d.writes ++ r ∷ [] } ∷ []
push_write r (d ∷ e ∷ l) = d ∷ push_write r (e ∷ l)

pub push_write-append :
    (r : Result ℕ VConnError) (l : List DownRound) (d : DownRound)
    → push_write r (l ++ d ∷ []) ≡ l ++ record { read = d.read; writes = d.writes ++ r ∷ [] } ∷ []
push_write-append r [] d = refl
push_write-append r (x ∷ []) d = refl
push_write-append r (x ∷ y ∷ l) d = ap (λ k. x ∷ k) (push_write-append r (y ∷ l) d)

module _ (t : Tcp) where
  abbrev pub up_call_fails :
      {s a f : Session t} {cmd : ConnCmd} → Call t s cmd a f → List UpRound → List UpRound
  up_call_fails (calls_read on up e to fails) l = after_read (err actor_gone) l
  up_call_fails (calls_write slice on down e to fails) l = l
  up_call_fails (calls_close_write on down e to fails) l = l
  up_call_fails (calls_close on e to fails) l = l

  abbrev pub up_step : {s u : Session t} → Step t s u → List UpRound → List UpRound
  up_step (call_fails cmd a f call gone to) l = up_call_fails call l
  up_step (gets_read i o r up e to) l = after_read r l
  up_step (writes_upstream buf up to) l = l ++ record { read = ok buf; write_ok = true } ∷ []
  up_step (upstream_fails buf up to) l = l ++ record { read = ok buf; write_ok = false } ∷ []
  up_step st l = l

  -- The rounds of `copy_vconn_to`: what each `read` came to, and the `write_all` of its bytes.
  abbrev pub up_rounds : {s u : Session t} → Reach t s u → List UpRound
  up_rounds here = []
  up_rounds (next r st) = up_step st (up_rounds r)

  abbrev pub down_call_fails :
      {s a f : Session t} {cmd : ConnCmd} → Call t s cmd a f → List DownRound → List DownRound
  down_call_fails (calls_write slice on down e to fails) l = push_write (err actor_gone) l
  down_call_fails (calls_close_write on down e to fails) l = half_closes l
  down_call_fails (calls_read on up e to fails) l = l
  down_call_fails (calls_close on e to fails) l = l

  abbrev pub down_step : {s u : Session t} → Step t s u → List DownRound → List DownRound
  down_step (call_fails cmd a f call gone to) l = down_call_fails call l
  down_step (reads_upstream o on down to) l = after_source o l
  down_step (gets_write slice i o r down e to) l = push_write r l
  down_step (gets_close_write i o r down e to) l = half_closes l
  down_step st l = l

  -- The rounds of `copy_to_vconn`: what each read of the upstream came to, and the calls of `write`
  -- that followed it.
  abbrev pub down_rounds : {s u : Session t} → Reach t s u → List DownRound
  down_rounds here = []
  down_rounds (next r st) = down_step st (down_rounds r)
