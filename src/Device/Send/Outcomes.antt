-- ===== src/Device/Send/Outcomes.antt =====
-- What `send_packet` and `send_tcp` of src/device.c may do.
use usbmuxd.Usb.Transfer.{usb_send}
use usbmuxd.Prelude.{
  Bool-cases, List, Option-cases, if◌then◌else◌, inl, inr, is_neg, length, le→ltb, lt→ltb, negsuc,
  pos, some, take, ℕ, ℤ, ◌+◌, ◌<◌, ◌≡◌, ◌≢◌, ◌≤◌,
}
use usbmuxd.World.{Ensures, Ensures-bind, Sys, World, pure, ret, update, ◌>>=◌}
use usbmuxd.Usb.State.{UsbDevice}
use usbmuxd.Usb.Transfer.Packets.{Ready, SameObjects, Transferred, usb_send-Transferred}
use usbmuxd.Device.State.{MuxDevice, usb_mtu}
use usbmuxd.Device.Send.{frame, header_size, mux_header_size, send_packet}

-- The size of the packet that `send_packet` makes.
abbrev pub packet_len : MuxDevice → ℕ → List ℕ → ℕ
packet_len d hdrlen payload = mux_header_size d.version + hdrlen + length payload

-- The packet, and the device after it was numbered.
abbrev pub framed : MuxDevice → ℕ → ℕ → List ℕ → List ℕ → List ℕ × MuxDevice
framed d proto hdrlen header payload =
    frame proto (take hdrlen header) payload (packet_len d hdrlen payload) d

module _ (sys : Sys) (p proto : ℕ) (header payload : List ℕ) (w : World) (d : MuxDevice)
    (at_p : w.dev p ≡ some d) where
  -- A packet of a protocol that has no outgoing header, or one larger than USB_MTU, is refused
  -- with -1, and nothing changes.
  pub send_packet_refused :
      ((hdrlen : ℕ) → header_size proto ≡ some hdrlen → usb_mtu < packet_len d hdrlen payload)
      → send_packet sys p proto header payload w ≡ ret (negsuc 0) w
  unfolding send_packet
  send_packet_refused large = elim (Option-cases (header_size proto)) [
    | inl no_header ↦ rw (at_p, ◌>>=◌, no_header)
    | inr (hdrlen, e) ↦
        rw (at_p, ◌>>=◌, e, lt→ltb usb_mtu (packet_len d hdrlen payload) (large hdrlen e))
  ]

  pub send_packet-Transferred :
      (hdrlen : ℕ) (u : UsbDevice)
      → header_size proto ≡ some hdrlen
      → packet_len d hdrlen payload ≤ usb_mtu
      → w.usb d.usbdev ≡ some u
      → u.max_packet_size ≢ 0
      → let buf = (framed d proto hdrlen header payload).0 in
        Ensures
          (λ r w'.
            (w'.dev ≡ update w.dev p (some (framed d proto hdrlen header payload).1))
            × (w'.conn ≡ w.conn)
            × (w'.client ≡ w.client)
            × (w'.device_list ≡ w.device_list)
            × (w'.client_list ≡ w.client_list)
            × Ready w' d.usbdev
            × ((r' : ℤ) × Transferred d.usbdev buf u.max_packet_size w.out r' w'
                × (r ≡ (if is_neg r' then r' else pos (packet_len d hdrlen payload)))))
          (send_packet sys p proto header payload w)
  unfolding send_packet
  send_packet-Transferred hdrlen u hs small e ne =
      rw (at_p, ◌>>=◌, hs, le→ltb usb_mtu (packet_len d hdrlen payload) small)
        (Ensures-bind (usb_send sys d.usbdev buf) _ _ _ v
          (usb_send-Transferred sys d.usbdev buf v u e ne) (λ r' w' h. numbered r' w' h.0 h.1 h.2))
    where
      buf : List ℕ
      buf = (framed d proto hdrlen header payload).0

      v : World
      v = record w { dev = update w.dev p (some (framed d proto hdrlen header payload).1) }

      numbered :
          (r' : ℤ) (w' : World)
          → SameObjects v w'
          → Ready w' d.usbdev
          → Transferred d.usbdev buf u.max_packet_size w.out r' w'
          → Ensures
              (λ r w'.
                (w'.dev ≡ v.dev)
                × (w'.conn ≡ w.conn)
                × (w'.client ≡ w.client)
                × (w'.device_list ≡ w.device_list)
                × (w'.client_list ≡ w.client_list)
                × Ready w' d.usbdev
                × ((r' : ℤ) × Transferred d.usbdev buf u.max_packet_size w.out r' w'
                    × (r ≡ (if is_neg r' then r' else pos (packet_len d hdrlen payload)))))
              ((if is_neg r' then pure r' else pure (pos (packet_len d hdrlen payload))) w')
      numbered r' w' same ready t = elim (Bool-cases (is_neg r')) [
        | inl neg ↦ rw neg (
          same.dev,
          same.conn,
          same.client,
          same.device_list,
          same.client_list,
          ready,
          (r', t, rw neg),
        )
        | inr fine ↦ rw fine (
          same.dev,
          same.conn,
          same.client,
          same.device_list,
          same.client_list,
          ready,
          (r', t, rw fine),
        )
      ]
