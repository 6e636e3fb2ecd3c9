-- ===== src/Relay/Session/Upward.antt =====
-- The upward loop of Relay/Session/Steps.antt is `copy_vconn_to` of src/relay.rs, on the rounds that it
-- goes through.
use smoltcp_socks.Common.{
  ℕ, ◌≡◌, ◌≢◌, refl, ap, sym, subst, ◌∙◌, Bool, true, false, List, [], ◌∷◌, ◌++◌, Bytes, none,
  Result, ok, err, append_assoc, append-nil,
}
use smoltcp_socks.Netstack.Vconn.{ConnCmd, VConnError, actor_gone}
use smoltcp_socks.Netstack.Socket.{Tcp, TcpLaws}
use smoltcp_socks.Netstack.Conn.{new}
use smoltcp_socks.Relay.{
  Outcome, done, waiting, failed, RelayError, upstream_write, UpstreamOp, wrote, flush, shutdown,
  UpRound, UpOut, up_chunk, up_round, copy_vconn_to,
}
use smoltcp_socks.Relay
use smoltcp_socks.Relay.Copy.{written}
use smoltcp_socks.Relay.Session.{
  Up, awaits_read, writes_all, up_ended, read_answered, Session, opened, delivers,
}
use smoltcp_socks.Relay.Session.Flight.{IsOrderly}
use smoltcp_socks.Relay.Session.Moves.{
  rests, answers_read, answers_write, takes_read, takes_write, answers_close_write, answers_close,
  Keeps,
}
use smoltcp_socks.Relay.Session.Orderly.{Reach-IsOrderly}
use smoltcp_socks.Relay.Session.Preserved.{none_pending}
use smoltcp_socks.Relay.Session.Rounds.{polls_keep}
use smoltcp_socks.Relay.Session.Steps.{
  Call, Step, Reach, here, next, dials, asks, call_fails, gets_read, writes_upstream,
  upstream_fails, reads_upstream, gets_write, gets_close_write, joins, gets_close, polls, takes,
  drops_conn, actor_ends, network,
}
use smoltcp_socks.Relay.Session.Trace.{after_read, up_call_fails, up_step, up_rounds}
use smoltcp_socks.Relay.Session.Takes.{takes_keep}

up_round_on :
    (x : Result Bytes VConnError) (w : Bool) (rest rest' tail : UpOut)
    → (up_round x w rest).0 ≡ waiting
    → (rest.0 ≡ waiting → rest' ≡ (tail.0, rest.1 ++ tail.1))
    → up_round x w rest' ≡ (tail.0, (up_round x w rest).1 ++ tail.1)
unfolding up_round up_chunk
up_round_on (err e) w rest rest' tail h ih = absurd (cc h)
up_round_on (ok []) w rest rest' tail h ih = absurd (cc h)
up_round_on (ok (c ∷ b)) false rest rest' tail h ih = absurd (cc h)
up_round_on (ok (c ∷ b)) true (o, ops) rest' tail h ih =
    ap (λ (x : UpOut). up_chunk (c ∷ b) true x) (ih h)

-- One round more of a loop that still runs.
copy_vconn_to-append :
    (rounds : List UpRound) (r : UpRound)
    → (copy_vconn_to rounds).0 ≡ waiting
    → copy_vconn_to (rounds ++ r ∷ []) ≡ (
      (up_round r.read r.write_ok (waiting, [])).0,
      (copy_vconn_to rounds).1 ++ (up_round r.read r.write_ok (waiting, [])).1,
    )
unfolding copy_vconn_to
copy_vconn_to-append [] r h = refl
copy_vconn_to-append (q ∷ rounds) r h =
    up_round_on q.read q.write_ok (copy_vconn_to rounds) (copy_vconn_to (rounds ++ r ∷ []))
      (up_round r.read r.write_ok (waiting, [])) h (copy_vconn_to-append rounds r)

written-append : (a b : List UpstreamOp) → written (a ++ b) ≡ written a ++ written b
written-append [] b = refl
written-append (wrote x ∷ a) b =
    ap (◌++◌ x) (written-append a b) ∙ sym (append_assoc x (written a) (written b))
written-append (flush ∷ a) b = written-append a b
written-append (shutdown ∷ a) b = written-append a b

-- How the loop stands, as an outcome of `copy_vconn_to`.
abbrev pub UpIs : Up → Outcome → Type 0
UpIs Up.calls_read o = o ≡ waiting
UpIs (awaits_read i x) o = o ≡ waiting
UpIs (writes_all b) o = (o ≡ waiting) × (b ≢ [])
UpIs (up_ended true) o = o ≡ done
UpIs (up_ended false) o = (e : RelayError) × (o ≡ failed e)

module _ (t : Tcp) where
  pub record IsUpCopy (rounds : List UpRound) (s : Session t) : Type 0 where
    pub carried : written (copy_vconn_to rounds).1 ≡ s.carried
    pub stands : UpIs s.up (copy_vconn_to rounds).0

module _ (t : Tcp) {rounds : List UpRound} where
  -- The loop has gone through one more round, in which it wrote `b`.
  up_on :
      (s u : Session t) (r : UpRound) (h : IsUpCopy t rounds s)
      → (copy_vconn_to rounds).0 ≡ waiting
      → u.carried ≡ s.carried ++ written (up_round r.read r.write_ok (waiting, [])).1
      → UpIs u.up (up_round r.read r.write_ok (waiting, [])).0
      → IsUpCopy t (rounds ++ r ∷ []) u
  up_on s u r h runs more stands =
      let e = copy_vconn_to-append rounds r runs in
      let x = up_round r.read r.write_ok (waiting, []) in
      record {
        carried =
            ap (λ (o : UpOut). written o.1) e
            ∙ written-append (copy_vconn_to rounds).1 x.1
            ∙ ap (λ l. l ++ written x.1) h.carried
            ∙ sym more;
        stands = subst (UpIs u.up) (sym (ap (λ (o : UpOut). o.0) e)) stands;
      }

  up_kept :
      (s u : Session t) (h : IsUpCopy t rounds s)
      → u.carried ≡ s.carried
      → UpIs u.up (copy_vconn_to rounds).0
      → IsUpCopy t rounds u
  up_kept s u h same stands = record { carried = h.carried ∙ sym same; stands = stands }

  -- A step that is not the loop's.
  aside :
      (s u : Session t)
      → u.up ≡ s.up
      → u.carried ≡ s.carried
      → IsUpCopy t rounds s
      → IsUpCopy t rounds u
  aside s u up same h =
      up_kept s u h same (subst (λ g. UpIs g (copy_vconn_to rounds).0) (sym up) h.stands)

  read_answered-IsUpCopy :
      (s u : Session t) (r : Result Bytes VConnError) (h : IsUpCopy t rounds s)
      → (copy_vconn_to rounds).0 ≡ waiting
      → u.up ≡ read_answered r
      → u.carried ≡ s.carried
      → IsUpCopy t (after_read r rounds) u
  unfolding read_answered up_round
  read_answered-IsUpCopy s u (err e) h runs up same =
      up_on s u (record { read = err e; write_ok = true }) h runs
        (same ∙ sym (append-nil s.carried))
        (subst (λ g. UpIs g (failed (Relay.vconn e))) (sym up) (Relay.vconn e, refl))
  read_answered-IsUpCopy s u (ok []) h runs up same =
      up_on s u (record { read = ok []; write_ok = true }) h runs
        (same ∙ sym (append-nil s.carried)) (subst (λ g. UpIs g done) (sym up) refl)
  read_answered-IsUpCopy s u (ok (c ∷ b)) h runs up same =
      up_kept s u h same (subst (λ g. UpIs g (copy_vconn_to rounds).0) (sym up) (runs, λ e. cc e))

  wrote-IsUpCopy :
      (s u : Session t) (buf : Bytes) (h : IsUpCopy t rounds s)
      → (copy_vconn_to rounds).0 ≡ waiting
      → buf ≢ []
      → u.up ≡ Up.calls_read
      → u.carried ≡ s.carried ++ buf
      → IsUpCopy t (rounds ++ record { read = ok buf; write_ok = true } ∷ []) u
  unfolding up_round up_chunk
  wrote-IsUpCopy s u [] h runs full up more = absurd (full refl)
  wrote-IsUpCopy s u (c ∷ b) h runs full up more =
      up_on s u (record { read = ok (c ∷ b); write_ok = true }) h runs
        (more ∙ ap (◌++◌ s.carried) (sym (append-nil (c ∷ b))))
        (subst (λ g. UpIs g waiting) (sym up) refl)

  failed-IsUpCopy :
      (s u : Session t) (buf : Bytes) (h : IsUpCopy t rounds s)
      → (copy_vconn_to rounds).0 ≡ waiting
      → buf ≢ []
      → u.up ≡ up_ended false
      → u.carried ≡ s.carried
      → IsUpCopy t (rounds ++ record { read = ok buf; write_ok = false } ∷ []) u
  unfolding up_round up_chunk
  failed-IsUpCopy s u [] h runs full up same = absurd (full refl)
  failed-IsUpCopy s u (c ∷ b) h runs full up same =
      up_on s u (record { read = ok (c ∷ b); write_ok = false }) h runs
        (same ∙ sym (append-nil s.carried))
        (subst (λ g. UpIs g (failed upstream_write)) (sym up) (upstream_write, refl))

  Move-IsUpCopy : Keeps t (IsUpCopy t rounds)
  Move-IsUpCopy s u (rests to) o h = subst (IsUpCopy t rounds) (sym to) h
  Move-IsUpCopy s u (answers_read c i r socket at up alone served taken kept to) o h =
      subst (IsUpCopy t rounds) (sym to)
        (up_kept s _ h refl (subst (λ g. UpIs g (copy_vconn_to rounds).0) up h.stands))
  Move-IsUpCopy s u (answers_write c slice i r socket at down alone served taken kept to) o h =
      aside s u (ap (λ (u : Session t). u.up) to) (ap (λ (u : Session t). u.carried) to) h
  Move-IsUpCopy s u (takes_read c max_len i rest at head idle to) o h =
      aside s u (ap (λ (u : Session t). u.up) to) (ap (λ (u : Session t). u.carried) to) h
  Move-IsUpCopy s u (takes_write c body i rest at head idle to) o h =
      aside s u (ap (λ (u : Session t). u.up) to) (ap (λ (u : Session t). u.carried) to) h
  Move-IsUpCopy s u (answers_close_write c i rest at head down alone to) o h =
      aside s u (ap (λ (u : Session t). u.up) to) (ap (λ (u : Session t). u.carried) to) h
  Move-IsUpCopy s u (answers_close c i rest at head stage alone to) o h =
      aside s u (ap (λ (u : Session t). u.up) to) (ap (λ (u : Session t). u.carried) to) h

  up_at :
      (s : Session t) (g : Up) (h : IsUpCopy t rounds s)
      → s.up ≡ g
      → UpIs g (copy_vconn_to rounds).0
  up_at s g h up = subst (λ g. UpIs g (copy_vconn_to rounds).0) up h.stands

  Call-IsUpCopy :
      (s : Session t) (cmd : ConnCmd) (a f : Session t) (call : Call t s cmd a f)
      → IsUpCopy t rounds s
      → IsUpCopy t rounds a × IsUpCopy t (up_call_fails t call rounds) f
  unfolding read_answered
  Call-IsUpCopy s cmd a f (Call.calls_read on up e to fails) h =
      let runs = up_at s Up.calls_read h up in
      (
        up_kept s a h (ap (λ (u : Session t). u.carried) to) (
            subst (λ g. UpIs g (copy_vconn_to rounds).0) (sym (ap (λ (u : Session t). u.up) to))
              runs),
        read_answered-IsUpCopy s f (err actor_gone) h runs (ap (λ (u : Session t). u.up) fails)
            (ap (λ (u : Session t). u.carried) fails),
      )
  Call-IsUpCopy s cmd a f (Call.calls_write slice on down e to fails) h = (
    aside s a (ap (λ (u : Session t). u.up) to) (ap (λ (u : Session t). u.carried) to) h,
    aside s f (ap (λ (u : Session t). u.up) fails) (ap (λ (u : Session t). u.carried) fails) h,
  )
  Call-IsUpCopy s cmd a f (Call.calls_close_write on down e to fails) h = (
    aside s a (ap (λ (u : Session t). u.up) to) (ap (λ (u : Session t). u.carried) to) h,
    aside s f (ap (λ (u : Session t). u.up) fails) (ap (λ (u : Session t). u.carried) fails) h,
  )
  Call-IsUpCopy s cmd a f (Call.calls_close on e to fails) h = (
    aside s a (ap (λ (u : Session t). u.up) to) (ap (λ (u : Session t). u.carried) to) h,
    aside s f (ap (λ (u : Session t). u.up) fails) (ap (λ (u : Session t). u.carried) fails) h,
  )

  module _ (laws : TcpLaws t) where
    Step-IsUpCopy :
        (s u : Session t) (st : Step t s u)
        → IsOrderly t s
        → IsUpCopy t rounds s
        → IsUpCopy t (up_step t st rounds) u
    unfolding delivers
    Step-IsUpCopy s u (asks cmd a f c call at room to) o h =
        aside a u (ap (λ (u : Session t). u.up) to) (ap (λ (u : Session t). u.carried) to)
          (Call-IsUpCopy s cmd a f call h).0
    Step-IsUpCopy s u (call_fails cmd a f call gone to) o h =
        subst (IsUpCopy t (up_call_fails t call rounds)) (sym to) (Call-IsUpCopy s cmd a f call h).1
    Step-IsUpCopy s u (gets_read i x r up e to) o h =
        read_answered-IsUpCopy s u r h (up_at s (awaits_read i x) h up)
          (ap (λ (u : Session t). u.up) to) (ap (λ (u : Session t). u.carried) to)
    Step-IsUpCopy s u (writes_upstream buf up to) o h =
        let (runs, full) = up_at s (writes_all buf) h up in
        wrote-IsUpCopy s u buf h runs full (ap (λ (u : Session t). u.up) to)
          (ap (λ (u : Session t). u.carried) to)
    Step-IsUpCopy s u (upstream_fails buf up to) o h =
        let (runs, full) = up_at s (writes_all buf) h up in
        failed-IsUpCopy s u buf h runs full (ap (λ (u : Session t). u.up) to)
          (ap (λ (u : Session t). u.carried) to)
    Step-IsUpCopy s u (polls c at to) o h =
        subst (IsUpCopy t rounds) (sym to)
          (polls_keep t laws (IsUpCopy t rounds) s c Move-IsUpCopy at (o, h)).1
    Step-IsUpCopy s u (takes c cmd rest at head to) o h =
        subst (IsUpCopy t rounds) (sym to)
          (takes_keep t laws (IsUpCopy t rounds) s c cmd rest Move-IsUpCopy at head (o, h)).1
    Step-IsUpCopy s u (drops_conn c at stage empty to) o h =
        let e =
          to
          ∙ ap (λ l. record (delivers t l s) { conn = none; socket = t.abort s.socket })
              (none_pending t s c at stage o) in
        aside s u (ap (λ (u : Session t). u.up) e) (ap (λ (u : Session t). u.carried) e) h
    Step-IsUpCopy s u (dials b stage to) o h =
        aside s u (ap (λ (u : Session t). u.up) to) (ap (λ (u : Session t). u.carried) to) h
    Step-IsUpCopy s u (reads_upstream x on down to) o h =
        aside s u (ap (λ (u : Session t). u.up) to) (ap (λ (u : Session t). u.carried) to) h
    Step-IsUpCopy s u (gets_write slice i x r down e to) o h =
        aside s u (ap (λ (u : Session t). u.up) to) (ap (λ (u : Session t). u.carried) to) h
    Step-IsUpCopy s u (gets_close_write i x r down e to) o h =
        aside s u (ap (λ (u : Session t). u.up) to) (ap (λ (u : Session t). u.carried) to) h
    Step-IsUpCopy s u (joins a b on up down to) o h =
        aside s u (ap (λ (u : Session t). u.up) to) (ap (λ (u : Session t). u.carried) to) h
    Step-IsUpCopy s u (gets_close i x r stage e to) o h =
        aside s u (ap (λ (u : Session t). u.up) to) (ap (λ (u : Session t). u.carried) to) h
    Step-IsUpCopy s u (actor_ends to) o h =
        aside s u (ap (λ (u : Session t). u.up) to) (ap (λ (u : Session t). u.carried) to) h
    Step-IsUpCopy s u (network socket new_bytes grown kept to) o h =
        aside s u (ap (λ (u : Session t). u.up) to) (ap (λ (u : Session t). u.carried) to) h

module _ (t : Tcp) (laws : TcpLaws t) where
  -- The upward loop of a relay, in whatever order its steps fall between those of the others, does
  -- what `copy_vconn_to` does on the rounds of the run: it has written the same bytes, it has ended with
  -- success or an error exactly as that has, and otherwise it waits.
  pub relay-IsUpCopy :
      (channel : ℕ) (socket : t.Socket) (s : Session t)
      (r : Reach t (opened t (new channel) socket) s)
      → IsUpCopy t (up_rounds t r) s
  unfolding copy_vconn_to
  relay-IsUpCopy channel socket _ here = record { carried = refl; stands = refl }
  relay-IsUpCopy channel socket s (next {u} r st) =
      Step-IsUpCopy t laws u s st (Reach-IsOrderly t laws channel socket u r)
        (relay-IsUpCopy channel socket u r)
