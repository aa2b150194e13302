-- ===== src/Device/Connection/Start.antt =====
-- `device_start_connect` of src/device.c: a client asks for a connection to a port of a device.
use usbmuxd.Device.Send.RoundTrip.{frame-connections}
use usbmuxd.Proto.{bad_dev, conn_refused}
use usbmuxd.Device.Send.Segment.{Segment, acknowledged, segment_header, send_tcp-Segment}
use usbmuxd.Device.Send.{send_tcp}
use usbmuxd.Device.Send.Outcomes.{framed, packet_len}
use usbmuxd.Prelude.{
  Bool-cases, List, [], arith, false, if◌then◌else◌, inl, inr, is_neg, length, m16, mem, none, pos,
  refl, some, suc, true, ℕ, ℤ, ◌%◌, ◌+◌, ◌<◌, ◌==◌, ◌∙◌, ◌≡◌, ◌≢◌, ◌≤◌, ◌⊎◌,
}
use usbmuxd.World.{
  Ensures, Ensures-bind, Sys, World, deref, fault, free_conn, load_dev, pure, ret, store_dev,
  update, update_self, ◌>>=◌, ◌>>◌,
}
use usbmuxd.Usb.State.{UsbDevice}
use usbmuxd.Device.State.{
  MuxConnection, MuxDevice, connecting, proto_tcp, tcphdr_len, th_syn, usb_mtu,
}
use usbmuxd.Device.Find.{find_sport, get_mux_device_for_id}
use usbmuxd.Device.Find.Sport.{AllConn, find_sport_fresh, find_sport_next, ports_in, took_port}
use usbmuxd.Device.Connection.{connect_from, device_start_connect, negated, new_connection}

-- A connection that was made at `w.fresh`: it is live, it waits for the device's answer, and it
-- stands in the device's collection under a port that no other connection of the device has.
abbrev pub Made : Sys → World → ℕ → List ℕ → ℕ → ℕ → World → Type 0
Made sys w p qs dport client w' =
    (c : MuxConnection) × (sport : ℕ) × (w'.conn w.fresh ≡ some c)
    × (c.state ≡ connecting)
    × (c.client ≡ some client)
    × (c.dport ≡ dport)
    × (c.sport ≡ sport)
    × (mem (ports_in w qs) sport ≡ false)
    × ((d' : MuxDevice) × (w'.dev p ≡ some d')
        × (d'.connections ≡ some (sys.collection_add qs w.fresh)))

-- No connection was made, and none is left in memory or in the collection.
abbrev pub NotMade : World → ℕ → List ℕ → ℤ → World → Type 0
NotMade w p qs r w' =
    (is_neg r ≡ true)
    × ((w'.conn w.fresh ≡ none) ⊎ (w'.conn ≡ w.conn))
    × ((d' : MuxDevice) × (w'.dev p ≡ some d') × (d'.connections ≡ some qs))

module _ (sys : Sys) (id dport client : ℕ) (w : World) (p : ℕ) (d : MuxDevice)
    (found : get_mux_device_for_id id w ≡ ret (some p) w) (at_p : w.dev p ≡ some d) where
  -- A device whose version packet has not come yet has no collection of connections, but its id is
  -- found: a request to connect to it reads memory that is not set.
  pub device_start_connect-unset :
      d.connections ≡ none → device_start_connect sys id dport client w ≡ fault
  unfolding device_start_connect find_sport
  device_start_connect-unset unset = rw (◌>>=◌, found, at_p, unset) refl

  module _ (qs : List ℕ) (set_up : d.connections ≡ some qs) (live : AllConn w qs)
      (range : d.next_sport < m16) (room : length qs < 65535) where
    -- When the counter of ports has gone round to 0 and no connection has the port 0, a request
    -- is refused as if the device did not exist, though fewer than 65535 ports are taken.
    pub device_start_connect-port_zero :
        d.next_sport ≡ 0
        → mem (ports_in w qs) 0 ≡ false
        → device_start_connect sys id dport client w ≡ ret (negated bad_dev) (took_port w p d 0)
    unfolding device_start_connect connect_from
    device_start_connect-port_zero round unused =
        let unused' : mem (ports_in w qs) d.next_sport ≡ false = rw round unused in
        rw (◌>>=◌, found, find_sport_next w p d qs at_p set_up live room unused', round) refl

    abbrev OutcomeOf : ℤ → World → Type 0
    OutcomeOf r w' = ((r ≡ pos 0) × Made sys w p qs dport client w') ⊎ NotMade w p qs r w'

    module _ (u : UsbDevice) (at_u : w.usb d.usbdev ≡ some u) (known : u.max_packet_size ≢ 0)
        (v : ℕ) (fresh : mem (ports_in w qs) v ≡ false) where
      abbrev numbered : MuxDevice
      numbered = record d { next_sport = (v + 1) % m16 }

      abbrev opened : World
      opened =
          let w₁ = took_port w p d v in
          record w₁ {
            fresh = suc w.fresh;
            conn = update w.conn w.fresh (some (new_connection p client v dport));
          }

      syn_fits : packet_len numbered tcphdr_len [] ≤ usb_mtu
      syn_fits = ground arith

      -- The device once the SYN was numbered.
      abbrev sender : MuxDevice
      sender =
          (framed numbered proto_tcp tcphdr_len
            (segment_header (new_connection p client v dport) th_syn) []).1

      sender-connections : sender.connections ≡ some qs
      sender-connections = frame-connections proto_tcp _ [] _ numbered ∙ set_up

      after_syn :
          (r : ℤ) (w' : World)
          → Segment opened w.fresh
              (new_connection p client v dport)
              (packet_len numbered tcphdr_len [])
              r
              w'
          → w'.dev ≡ update opened.dev p (some sender)
          → Ensures OutcomeOf (
              (if is_neg r then (do free_conn w.fresh; pure (negated conn_refused)) else (do
                d ← load_dev p
                qs ← deref d.connections
                store_dev p (record d { connections = some (sys.collection_add qs w.fresh) })
                pure (pos 0)))
                w')
      unfolding new_connection
      after_syn r w' (inl (neg, same)) dev = rw neg (
          inr (
            refl,
            inl (update_self w'.conn w.fresh none),
            (sender, rw dev (update_self opened.dev p _), sender-connections),
          ))
      after_syn r w' (inr (size, conn)) dev =
          let at_p' : w'.dev p ≡ some sender = rw dev (update_self opened.dev p _) in
          rw (size, at_p', ◌>>=◌, sender-connections)
            (inl (
              refl,
              (
                acknowledged (new_connection p client v dport) w'.clock,
                v,
                rw conn (update_self opened.conn w.fresh _),
                refl,
                refl,
                refl,
                refl,
                fresh,
                (_, update_self w'.dev p _, refl),
              ),
            ))

      from_port : Ensures OutcomeOf (connect_from sys p dport client v (took_port w p d v))
      unfolding connect_from new_connection
      from_port = elim (Bool-cases (v == 0)) [
        | inl zero_port ↦
            rw zero_port (inr (refl, inr refl, (numbered, update_self w.dev p _, set_up)))
        | inr usable ↦
            rw (usable, ◌>>=◌)
              (Ensures-bind (send_tcp sys w.fresh th_syn []) _ _ OutcomeOf opened
                (send_tcp-Segment sys w.fresh th_syn [] opened (new_connection p client v dport)
                  numbered u (update_self w.conn w.fresh _) (update_self w.dev p _) syn_fits at_u
                  known)
                (λ r w' h. after_syn r w' h.0 h.1))
      ]

    -- On a device that is set up and ready the call returns. With 0 the connection was made, under
    -- a port of its own; with a negative result it was not, and nothing of it is left.
    pub device_start_connect-outcome :
        (u : UsbDevice)
        → w.usb d.usbdev ≡ some u
        → u.max_packet_size ≢ 0
        → Ensures
            (λ r w'. ((r ≡ pos 0) × Made sys w p qs dport client w') ⊎ NotMade w p qs r w')
            (device_start_connect sys id dport client w)
    unfolding device_start_connect
    device_start_connect-outcome u at_u known =
        rw (◌>>=◌, found)
          (let port = find_sport_fresh w p d qs at_p set_up live range room in
            rw port.1 (from_port u at_u known port.0 port.2))
