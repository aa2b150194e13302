-- ===== src/Tests/Transport.antt =====
-- The theorems on packets to and from a device at concrete inputs.
use usbmuxd.Device.Packet.{TcpHeader, gather, mux_length, tcp_header_at, whole}
use usbmuxd.Prelude.{
  List, [], arith, drop, if◌then◌else◌, is_neg, length, length-append, length-replicate, pos, refl,
  replicate, some, ℕ, ℤ, ◌++◌, ◌∷◌, ◌≡◌,
}
use usbmuxd.World.{Ensures, update}
use usbmuxd.Tests.Fixture.{benign, phone, plug, start}
use usbmuxd.Usb.Transfer.{usb_send}
use usbmuxd.Usb.Transfer.Packets.{Ready, SameObjects, Transferred, usb_send-Transferred}
use usbmuxd.Device.State.{proto_tcp}
use usbmuxd.Device.Send.{frame, header_size, send_packet, tcp_header}
use usbmuxd.Device.Send.RoundTrip.{frame_tcp}
use usbmuxd.Device.Send.Outcomes.{framed, send_packet-Transferred}
use usbmuxd.Device.Packet.Gathering.{Explained, feed, feed-whole, gather-Explained}

usb_send-Transferred_example :
    Ensures
      (λ r w'. SameObjects start w' × Ready w' 1 × Transferred 1 (1 ∷ 2 ∷ []) 512 [] r w')
      (usb_send benign 1 (1 ∷ 2 ∷ []) start)
usb_send-Transferred_example =
    usb_send-Transferred benign 1 (1 ∷ 2 ∷ []) start plug refl (omega arith)

-- A SYN packet of the connection.
abbrev syn : List ℕ
syn = tcp_header 1 62078 0 0 2 512

send_packet-Transferred_example :
    let (buf, d) = framed phone proto_tcp 20 syn [] in
    Ensures
      (λ r w'.
        (w'.dev ≡ update start.dev 2 (some d))
        × (w'.conn ≡ start.conn)
        × (w'.client ≡ start.client)
        × (w'.device_list ≡ start.device_list)
        × (w'.client_list ≡ start.client_list)
        × Ready w' 1
        × ((r' : ℤ) × Transferred 1 buf 512 [] r' w' × (r ≡ (if is_neg r' then r' else pos 36))))
      (send_packet benign 2 proto_tcp syn [] start)
unfolding header_size
send_packet-Transferred_example =
    send_packet-Transferred benign 2 proto_tcp syn [] start phone refl 20 plug refl (omega arith)
      refl (omega arith)

frame_tcp_example :
    let buf = (frame proto_tcp (tcp_header 1 62078 5 6 16 512) (1 ∷ []) 37 phone).0 in
    (tcp_header_at (λ i. 0) buf 16
      ≡ record { sport = 1; dport = 62078; seq = 5; ack = 6; flags = 16; win = 512 })
    × (drop 36 buf ≡ 1 ∷ [])
frame_tcp_example =
    frame_tcp (λ i. 0) phone 1 62078 5 6 16 512 (1 ∷ []) 37 (omega arith) (omega arith)
      (omega arith) (omega arith) (omega arith)

gather-Explained_example :
    Explained (λ i. 0) phone (1 ∷ 2 ∷ []) (gather (λ i. 0) phone (1 ∷ 2 ∷ []))
gather-Explained_example = gather-Explained (λ i. 0) phone (1 ∷ 2 ∷ []) (omega arith) (omega arith)

-- A packet of 16386 bytes, in two transfers.
abbrev first : List ℕ
first = 0 ∷ 0 ∷ 0 ∷ 6 ∷ 0 ∷ 0 ∷ 64 ∷ 2 ∷ replicate 16376 0

length-first : length first ≡ 16384
length-first = omega (arith, length-replicate {A = ℕ} 16376 0)

feed-whole_example :
    feed (λ i. 0) phone (first ∷ (8 ∷ 9 ∷ []) ∷ []) ≡ whole phone (first ++ (8 ∷ 9 ∷ []))
unfolding mux_length
feed-whole_example =
    feed-whole (λ i. 0) (first ∷ []) (8 ∷ 9 ∷ []) phone refl (length-first, tt) (omega arith)
      (omega arith) (omega (arith, length-append first (8 ∷ 9 ∷ []), length-first))
      (omega (arith, length-append first (8 ∷ 9 ∷ []), length-first))

-- A packet for port 7, which no connection has.
abbrev stray : TcpHeader
stray = record { sport = 62078; dport = 7; seq = 5; ack = 1; flags = 16; win = 512 }
