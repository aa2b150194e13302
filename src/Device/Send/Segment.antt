-- ===== src/Device/Send/Segment.antt =====
-- `send_tcp` of src/device.c: one segment of a connection, which carries its acknowledgement.
use usbmuxd.Prelude.{
  Bool-cases, List, clear_bit, if◌then◌else◌, inl, inr, is_neg, m16, pos, refl, some, true, ℕ, ℤ,
  ◌%◌, ◌/◌, ◌≡◌, ◌≢◌, ◌≤◌, ◌⊎◌,
}
use usbmuxd.World.{Ensures, Ensures-bind, Sys, World, pure, update, ◌>>=◌, ◌>>◌}
use usbmuxd.Usb.State.{UsbDevice}
use usbmuxd.Usb.Transfer.Packets.{Ready}
use usbmuxd.Device.State.{
  MuxConnection, MuxDevice, conn_ack_pending, proto_tcp, tcphdr_len, usb_mtu,
}
use usbmuxd.Device.Send.{header_size, mstime64, note_acked, send_packet, send_tcp, tcp_header}
use usbmuxd.Device.Send.Outcomes.{framed, packet_len, send_packet-Transferred}

-- The header with the counters of the connection.
abbrev pub segment_header : MuxConnection → ℕ → List ℕ
segment_header c flags = tcp_header c.sport c.dport c.tx_seq c.tx_ack flags (c.tx_win / 256 % m16)

-- The connection whose acknowledgement went out at that time.
abbrev pub acknowledged : MuxConnection → ℕ → MuxConnection
acknowledged c t = record c {
  tx_acked = c.tx_ack;
  last_ack_time = t;
  flags = clear_bit conn_ack_pending c.flags;
}

-- A call that sent a segment, or failed and left the connections alone.
abbrev pub Segment : World → ℕ → MuxConnection → ℕ → ℤ → World → Type 0
Segment w q c total r w' =
    ((is_neg r ≡ true) × (w'.conn ≡ w.conn))
    ⊎ ((r ≡ pos total) × (w'.conn ≡ update w.conn q (some (acknowledged c w'.clock))))

module _ (sys : Sys) (q flags : ℕ) (payload : List ℕ) (w : World) (c : MuxConnection)
    (d : MuxDevice) (u : UsbDevice) (at_q : w.conn q ≡ some c) (at_d : w.dev c.dev ≡ some d)
    (small : packet_len d tcphdr_len payload ≤ usb_mtu) (at_u : w.usb d.usbdev ≡ some u)
    (known : u.max_packet_size ≢ 0) where
  abbrev total : ℕ
  total = packet_len d tcphdr_len payload

  abbrev made : List ℕ × MuxDevice
  made = framed d proto_tcp tcphdr_len (segment_header c flags) payload

  abbrev SentSo : ℤ → World → Type 0
  SentSo r w' =
      Segment w q c total r w'
      × (w'.dev ≡ update w.dev c.dev (some made.1))
      × (w'.client ≡ w.client)
      × (w'.device_list ≡ w.device_list)
      × (w'.client_list ≡ w.client_list)
      × Ready w' d.usbdev

  tail :
      (r r' : ℤ) (w' : World)
      → w'.conn ≡ w.conn
      → (w'.dev ≡ update w.dev c.dev (some made.1))
      → (w'.client ≡ w.client)
      → (w'.device_list ≡ w.device_list)
      → (w'.client_list ≡ w.client_list)
      → Ready w' d.usbdev
      → r ≡ (if is_neg r' then r' else pos total)
      → Ensures SentSo ((if is_neg r then pure r else (do note_acked sys q; pure r)) w')
  unfolding note_acked mstime64
  tail r r' w' conn dev client devices clients ready e = elim (Bool-cases (is_neg r')) [
    | inl bad ↦
        let same : r ≡ r' = rw bad at e in
        rw (same, bad) (inl (bad, conn), dev, client, devices, clients, ready)
    | inr good ↦
        let size : r ≡ pos total = rw good at e in
        rw (size, ◌>>=◌, conn, at_q) (inr (size, refl), dev, client, devices, clients, ready)
  ]

  -- A segment of a live connection that fits in a packet, to a device that is ready: the call
  -- returns, with a negative result and the connections as they were, or with the size of the
  -- packet; then the connection counts as acknowledged up to the number in the segment, at the time
  -- that the clock shows, and nothing is pending. The packet took the device's next number; clients
  -- and the two collections stay.
  pub send_tcp-Segment :
      Ensures
        (λ r w'.
          Segment w q c (packet_len d tcphdr_len payload) r w'
          × (w'.dev
              ≡ update w.dev c.dev
                  (some (framed d proto_tcp tcphdr_len (segment_header c flags) payload).1))
          × (w'.client ≡ w.client)
          × (w'.device_list ≡ w.device_list)
          × (w'.client_list ≡ w.client_list)
          × Ready w' d.usbdev)
        (send_tcp sys q flags payload w)
  unfolding send_tcp note_acked mstime64 header_size
  send_tcp-Segment =
      rw (at_q, ◌>>=◌)
        (Ensures-bind (send_packet sys c.dev proto_tcp (segment_header c flags) payload) _ _ SentSo
          w
          (send_packet-Transferred sys c.dev proto_tcp (segment_header c flags) payload w d at_d
            tcphdr_len u refl small at_u known)
          (λ r w' h. tail r h.6.0 w' h.1 h.0 h.2 h.3 h.4 h.5 h.6.2))
