-- ===== src/Device/Send.antt =====
-- Packets to a device in src/device.c: `send_packet`, which frames them, and `send_tcp` and
-- `send_anon_rst`, which fill in a TCP header.
pub mod RoundTrip
pub mod Outcomes
pub mod Segment
use usbmuxd.Prelude.{
  List, Option, [], add16, be16, be32, clear_bit, if◌then◌else◌, is_neg, length, ltb, m16, negsuc,
  none, pos, some, take, ℕ, ℤ, ◌%◌, ◌++◌, ◌+◌, ◌/◌, ◌==◌, ◌∷◌,
}
use usbmuxd.World.{
  M, Sys, call, load_conn, load_dev, now, pass, pure, store_conn, store_dev, ◌>>=◌, ◌>>◌,
}
use usbmuxd.Usb.Transfer.{usb_send}
use usbmuxd.Device.State.{
  MuxDevice, conn_ack_pending, mux_header_len, proto_setup, proto_tcp, proto_version, tcphdr_len,
  th_rst, usb_mtu, version_header_len,
}

-- The length of the header that follows the multiplexer's own, by protocol.
unfoldable pub header_size : ℕ → Option ℕ
header_size proto =
    if proto == proto_version
    then some version_header_len
    else if proto == proto_setup
    then some 0
    else if proto == proto_tcp
    then some tcphdr_len
    else none

-- `(dev->version < 2) ? 8 : sizeof(struct mux_header)`
abbrev pub mux_header_size : ℕ → ℕ
mux_header_size version = if ltb version 2 then 8 else mux_header_len

-- The device with the sequence numbers that the packet is sent under.
abbrev pub reset_seq : ℕ → MuxDevice → MuxDevice
reset_seq proto d = if proto == proto_setup then record d { tx_seq = 0; rx_seq = 65535 } else d

-- The bytes of the packet, and the device after it was numbered.
unfoldable pub frame : ℕ → List ℕ → List ℕ → ℕ → MuxDevice → List ℕ × MuxDevice
frame proto header payload total d =
    if ltb d.version 2
    then (be32 proto ++ (be32 total ++ (header ++ payload)), d)
    else let e = reset_seq proto d in
      (
        be32 proto
            ++ (be32 total
                ++ (be32 0xfeedface ++ (be16 e.tx_seq ++ (be16 e.rx_seq ++ (header ++ payload))))),
        record e { tx_seq = add16 e.tx_seq 1 },
      )

-- `struct tcphdr` as `send_tcp` and `send_anon_rst` fill it in: no options, sum or urgent pointer.
unfoldable pub tcp_header : ℕ → ℕ → ℕ → ℕ → ℕ → ℕ → List ℕ
tcp_header sport dport seq ack flags win =
    be16 sport
    ++ (be16 dport ++ (be32 seq ++ (be32 ack ++ (80 ∷ flags ∷ (be16 win ++ (0 ∷ 0 ∷ 0 ∷ 0 ∷ []))))))

module _ (sys : Sys) where
  unfoldable pub send_packet : ℕ → ℕ → List ℕ → List ℕ → M ℤ
  send_packet p proto header payload = do
    d ← load_dev p
    elim (header_size proto) [
      | none ↦ pure (negsuc 0)
      | some hdrlen ↦
          let total = mux_header_size d.version + hdrlen + length payload in
          if ltb usb_mtu total then pure (negsuc 0) else (do
            let (buffer, d') = frame proto (take hdrlen header) payload total d
            store_dev p d'
            res ← usb_send sys d.usbdev buffer
            if is_neg res then pure res else pure (pos total))
    ]

  unfoldable pub send_anon_rst : ℕ → ℕ → ℕ → ℕ → M ℤ
  unfolding tcp_header
  send_anon_rst p sport dport ack =
      send_packet p proto_tcp (tcp_header sport dport 0 ack th_rst 0) []

  unfoldable pub mstime64 : M ℕ
  mstime64 = do n ← call; pass (sys.elapsed n); now

  -- The acknowledgement has gone out: note it and the time.
  unfoldable pub note_acked : ℕ → M (Unit {0})
  unfolding mstime64
  note_acked q = do
    t ← mstime64
    c ← load_conn q
    store_conn q (record c {
      tx_acked = c.tx_ack;
      last_ack_time = t;
      flags = clear_bit conn_ack_pending c.flags;
    })

  unfoldable pub send_tcp : ℕ → ℕ → List ℕ → M ℤ
  unfolding tcp_header note_acked
  send_tcp q flags payload = do
    c ← load_conn q
    res ←
        send_packet c.dev proto_tcp
          (tcp_header c.sport c.dport c.tx_seq c.tx_ack flags (c.tx_win / 256 % m16)) payload
    if is_neg res then pure res else (do note_acked q; pure res)
