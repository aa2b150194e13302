-- ===== src/Device/Send/RoundTrip.antt =====
-- The packets that src/device.c builds, read back by the same file's code for incoming packets.
use usbmuxd.Prelude.{
  Bool-cases, List, arith, drop, inl, inr, length, length-append, ltb, m16, m32, of_be16-be16,
  of_be32-be32, refl, ℕ, ◌+◌, ◌<◌, ◌==◌, ◌≡◌,
}
use usbmuxd.Device.State.{MuxDevice, proto_setup, proto_tcp, tcphdr_len}
use usbmuxd.Device.Send.{frame, mux_header_size, tcp_header}
use usbmuxd.Device.Packet.{mux_length, mux_protocol, tcp_header_at}

-- The bytes of a packet are as many as its length field says, if the header has its size.
pub length-frame :
    (proto : ℕ) (header payload : List ℕ) (d : MuxDevice) (hdrlen : ℕ)
    → length header ≡ hdrlen
    → let total = mux_header_size d.version + hdrlen + length payload in
      length (frame proto header payload total d).0 ≡ total
unfolding frame
length-frame proto header payload d hdrlen e = ground (arith, length-append header payload)

-- Numbering a packet leaves the device's connections alone.
pub frame-connections :
    (proto : ℕ) (header payload : List ℕ) (total : ℕ) (d : MuxDevice)
    → (frame proto header payload total d).1.connections ≡ d.connections
unfolding frame
frame-connections proto header payload total d = elim (Bool-cases (ltb d.version 2)) [
  | inl old ↦ rw old refl
  | inr new ↦ rw new (elim (Bool-cases (proto == proto_setup)) [
    | inl setup ↦ rw setup refl
    | inr other ↦ rw other refl
  ])
]

-- What a receiver reads in the header of any packet that is sent: the protocol and the length. The
-- packet has as many bytes as the length says.
pub frame_header :
    (stale : ℕ → ℕ) (proto : ℕ) (header payload : List ℕ) (d : MuxDevice)
    → proto < m32
    → let total = mux_header_size d.version + length header + length payload in
      total < m32
      → let buf = (frame proto header payload total d).0 in
        (mux_protocol stale buf ≡ proto) × (mux_length stale buf ≡ total) × (length buf ≡ total)
unfolding frame mux_length mux_protocol
frame_header stale proto header payload d hp ht = elim (Bool-cases (ltb d.version 2)) [
  | inl old ↦
      let total : ℕ = 8 + length header + length payload in
      let small : total < m32 = rw old at ht in
      rw old (
        of_be32-be32 proto hp,
        of_be32-be32 total small,
        omega (arith, length-append header payload),
      )
  | inr new ↦
      let total : ℕ = 16 + length header + length payload in
      let small : total < m32 = rw new at ht in
      rw new (
        of_be32-be32 proto hp,
        of_be32-be32 total small,
        omega (arith, length-append header payload),
      )
]

-- The fields behind their byte order.
read_back :
    (sport dport seq ack flags win : ℕ)
    → sport < m16
    → dport < m16
    → seq < m32
    → ack < m32
    → win < m16
    → tcp_header_at (λ i. 0) (tcp_header sport dport seq ack flags win) 0
      ≡ record { sport = sport; dport = dport; seq = seq; ack = ack; flags = flags; win = win }
unfolding tcp_header tcp_header_at
read_back sport dport seq ack flags win h1 h2 h3 h4 h5 = λ i. record {
  sport = of_be16-be16 sport h1 i;
  dport = of_be16-be16 dport h2 i;
  seq = of_be32-be32 seq h3 i;
  ack = of_be32-be32 ack h4 i;
  flags = flags;
  win = of_be16-be16 win h5 i;
}

-- A TCP packet is read back as it was written: the ports, the counters, the flags, the window and
-- the payload, for fields of their width and with either form of the multiplexer's header.
pub frame_tcp :
    (stale : ℕ → ℕ) (d : MuxDevice) (sport dport seq ack flags win : ℕ) (payload : List ℕ)
    (total : ℕ)
    → sport < m16
    → dport < m16
    → seq < m32
    → ack < m32
    → win < m16
    → let start = mux_header_size d.version in
      let buf = (frame proto_tcp (tcp_header sport dport seq ack flags win) payload total d).0 in
      (tcp_header_at stale buf start
        ≡ record { sport = sport; dport = dport; seq = seq; ack = ack; flags = flags; win = win })
      × (drop (start + tcphdr_len) buf ≡ payload)
unfolding frame tcp_header tcp_header_at
frame_tcp stale d sport dport seq ack flags win payload total h1 h2 h3 h4 h5 =
    elim (Bool-cases (ltb d.version 2)) [
      | inl old ↦ rw old (read_back sport dport seq ack flags win h1 h2 h3 h4 h5, refl)
      | inr new ↦ rw new (read_back sport dport seq ack flags win h1 h2 h3 h4 h5, refl)
    ]
