-- ===== src/Main/Program.antt =====
-- `main` of src/main.rs, from the command line to the end of the program.
use smoltcp_socks.Common.{
  ℕ, ◌≡◌, ◌≢◌, refl, ap, Bool, true, false, [], Option, none, some, Result, ok, err, if◌then◌else◌,
  arith,
}
use smoltcp_socks.Config.{Config}
use smoltcp_socks.Mpsc.{Mpsc}
use smoltcp_socks.Device.{Packet}
use smoltcp_socks.Netstack.Interface.{InterfaceApi, InterfaceLaws}
use smoltcp_socks.Netstack.Socket.{Tcp, TcpLaws, SocketSet, SocketSetLaws}
use smoltcp_socks.Netstack.Spawn.{NetstackHandle, can_stop, stop}
use smoltcp_socks.Runtime.{Runtime, Started, StartError, start, shutdown}
use smoltcp_socks.Runtime.Checks.{IsStarted, Outcome, start-Outcome}
use smoltcp_socks.Main.{Args, into_config}

module _ (m : Mpsc Packet) (api : InterfaceApi) (t : Tcp) (ss : SocketSet t) where
  -- How the program ends; `stopping` holds what is left of the handle, or `none` if its message waits
  -- for room.
  pub data Exit : Type 0 where
    start_failed : StartError → Exit
    signal_failed : Started m api t ss → Exit
    stopping : Started m api t ss → Option NetstackHandle → Exit

  then_stop : Bool → Bool → Result (Started m api t ss) StartError → Exit
  then_stop interrupt running (err e) = start_failed e
  then_stop interrupt running (ok r) =
      if interrupt then stopping r (shutdown running r.runtime) else signal_failed r

  exits : Bool → Bool → Option (Result (Started m api t ss) StartError) → Option Exit
  unfolding then_stop
  exits interrupt running none = none
  exits interrupt running (some r) = some (then_stop interrupt running r)

  -- `interrupt` says whether `ctrl_c` gives a signal or an error, and `running` whether the actor's
  -- task still runs then. `none` is a panic.
  unfoldable pub main : ℕ → Args → Bool → Bool → Option Exit
  unfolding exits
  main now args interrupt running =
      exits interrupt running (start m api t ss now (into_config args))

  -- The handle's end, if the message to stop has gone out, or the actor had ended before.
  abbrev pub HasStopped : Option NetstackHandle → Type 0
  HasStopped none = ⊥
  HasStopped (some h) = (can_stop h ≡ true) × (h.held ≡ false)

  abbrev pub Ends : Config → Bool → Exit → Type 0
  Ends cfg interrupt (start_failed e) = Outcome m api t ss cfg (err e)
  Ends cfg interrupt (signal_failed r) =
      (interrupt ≡ false) × (cfg.device ≢ []) × (cfg.proxy ≢ []) × IsStarted m api t ss cfg r
  Ends cfg interrupt (stopping r left) =
      (interrupt ≡ true)
      × (cfg.device ≢ [])
      × (cfg.proxy ≢ [])
      × IsStarted m api t ss cfg r
      × HasStopped left

  shutdown-HasStopped :
      (running : Bool) (r : Runtime) → r.handle.sent ≡ 0 → HasStopped (shutdown running r)
  unfolding shutdown stop
  shutdown-HasStopped false r h = (ground arith, refl)
  shutdown-HasStopped true r h = rw h (refl, refl)

  then_stop-Ends :
      (cfg : Config) (interrupt running : Bool) (r : Result (Started m api t ss) StartError)
      → Outcome m api t ss cfg r
      → Ends cfg interrupt (then_stop interrupt running r)
  unfolding then_stop
  then_stop-Ends cfg interrupt running (err e) h = h
  then_stop-Ends cfg false running (ok r) (d, p, s) = (refl, d, p, s)
  then_stop-Ends cfg true running (ok r) (d, p, s) =
      (refl, d, p, s, shutdown-HasStopped running r.runtime s.no_stop_yet)

  module _ (iface_laws : InterfaceLaws api) (laws : TcpLaws t) (set_laws : SocketSetLaws t ss) where
    -- The program does not panic before its end. It fails to start exactly if the device is empty, or
    -- else the proxy is, or else the proxy's URL is refused, with the error for each. Otherwise the
    -- dialer is the one of the URL, the stack takes packets for every address and has a default route
    -- of each family, the tasks start safe, and the pump, the device and the stack work with the same
    -- MTU; an interrupt then stops the actor, unless it had ended before, without waiting for room,
    -- and the program fails if waiting for the interrupt fails.
    pub main-Ends :
        (now : ℕ) (args : Args) (interrupt running : Bool)
        → (e : Exit) × (main now args interrupt running ≡ some e)
          × Ends (into_config args) interrupt e
    unfolding main exits
    main-Ends now args interrupt running =
        let (r, e, o) = start-Outcome m api t ss iface_laws laws set_laws now (into_config args) in
        (
          then_stop interrupt running r,
          ap (exits interrupt running) e,
          then_stop-Ends (into_config args) interrupt running r o,
        )
