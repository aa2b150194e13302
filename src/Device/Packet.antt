-- ===== src/Device/Packet.antt =====
-- The bytes of a packet from the device in src/device.c: gathering the transfers that it came in,
-- and reading its headers. A field may lie behind the bytes received: then it is stale memory.
pub mod Gathering
use usbmuxd.Prelude.{
  List, [], add32, get_or, if◌then◌else◌, length, ltb, of_be16, of_be32, ℕ, ◌&&◌, ◌++◌, ◌+◌, ◌==◌,
  ◌||◌,
}
use usbmuxd.Device.State.{MuxDevice, dev_mru, pktlen, usb_mru}

-- Where a transfer leads: the packet is given up, is still incomplete, or is to be handled.
pub data Gathered : Type 0 where
  dropped waiting : MuxDevice → Gathered
  whole : MuxDevice → List ℕ → Gathered

-- `struct tcphdr`, in host order.
pub record TcpHeader : Type 0 where
  pub sport : ℕ
  pub dport : ℕ
  pub seq : ℕ
  pub ack : ℕ
  pub flags : ℕ
  pub win : ℕ

module _ (stale : ℕ → ℕ) where
  abbrev pub byte_at : List ℕ → ℕ → ℕ
  byte_at buf i = get_or buf i (stale i)

  abbrev pub be16_at : List ℕ → ℕ → ℕ
  be16_at buf i = of_be16 (byte_at buf i) (byte_at buf (i + 1))

  abbrev pub be32_at : List ℕ → ℕ → ℕ
  be32_at buf i =
      of_be32 (byte_at buf i) (byte_at buf (i + 1)) (byte_at buf (i + 2)) (byte_at buf (i + 3))

  -- `ntohl(mhdr->protocol)`, `ntohl(mhdr->length)`
  unfoldable pub mux_protocol : List ℕ → ℕ
  mux_protocol buf = be32_at buf 0

  unfoldable pub mux_length : List ℕ → ℕ
  mux_length buf = be32_at buf 4

  -- "handle broken up transfers"
  unfoldable pub gather : MuxDevice → List ℕ → Gathered
  gather d buffer =
      let len = length buffer in
      let all = d.pktbuf ++ buffer in
      if ltb 0 (pktlen d)
      then (if ltb dev_mru (add32 len (pktlen d))
          then dropped (record d { pktbuf = [] })
          else if ltb len usb_mru || mux_length all == add32 len (pktlen d)
          then whole (record d { pktbuf = [] }) all
          else waiting (record d { pktbuf = all }))
      else if (len == usb_mru) && ltb len (mux_length buffer)
      then waiting (record d { pktbuf = buffer })
      else whole d buffer

  unfoldable pub tcp_header_at : List ℕ → ℕ → TcpHeader
  tcp_header_at buf i = record {
    sport = be16_at buf i;
    dport = be16_at buf (i + 2);
    seq = be32_at buf (i + 4);
    ack = be32_at buf (i + 8);
    flags = byte_at buf (i + 13);
    win = be16_at buf (i + 14);
  }
