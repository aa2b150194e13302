-- ===== src/Device/Input/Unknown.antt =====
-- A TCP packet for a connection that the device does not have, in src/device.c.
use usbmuxd.Prelude.{
  List, [], arith, false, has_bit, none, refl, some, true, ℕ, ℤ, ◌&&◌, ◌==◌, ◌≡◌, ◌≢◌, ◌≤◌,
}
use usbmuxd.World.{Ensures, Ensures-bind, Ensures-mono, Sys, World, pure, ret, ◌>>=◌, ◌>>◌}
use usbmuxd.Usb.State.{UsbDevice}
use usbmuxd.Usb.Transfer.Packets.{Transferred}
use usbmuxd.Device.State.{MuxDevice, is_active, proto_tcp, tcphdr_len, th_rst, usb_mtu}
use usbmuxd.Device.Find.{find_conn}
use usbmuxd.Device.Packet.{TcpHeader}
use usbmuxd.Device.Send.{header_size, send_anon_rst, send_packet, tcp_header}
use usbmuxd.Device.Send.Outcomes.{framed, packet_len, send_packet-Transferred}
use usbmuxd.Device.Input.{device_tcp_input}

-- The RST with the ports of the packet and its number acknowledged.
abbrev pub rst_for : TcpHeader → List ℕ
rst_for th = tcp_header th.dport th.sport 0 th.seq th_rst 0

module _ (sys : Sys) (p : ℕ) (th : TcpHeader) (w : World) (d : MuxDevice) (at_p : w.dev p ≡ some d)
    (u : UsbDevice) (at_u : w.usb d.usbdev ≡ some u) (known : u.max_packet_size ≢ 0) where
  fits : packet_len d tcphdr_len [] ≤ usb_mtu
  fits = ground arith

  abbrev Answered : World → Type 0
  Answered w' =
      (w'.conn ≡ w.conn)
      × (w'.client ≡ w.client)
      × ((r : ℤ) × Transferred d.usbdev (framed d proto_tcp tcphdr_len (rst_for th) []).0
            u.max_packet_size w.out r w')

  send_anon_rst_answers :
      Ensures (λ _ w'. Answered w') (send_anon_rst sys p th.dport th.sport th.seq w)
  unfolding send_anon_rst header_size
  send_anon_rst_answers =
      Ensures-mono _ (λ _ w'. Answered w') (send_packet sys p proto_tcp (rst_for th) [] w)
        (send_packet-Transferred sys p proto_tcp (rst_for th) [] w d at_p tcphdr_len u refl fits
          at_u known)
        (λ r w' h. (h.1, h.2, (h.6.0, h.6.1)))

  module _ (payload : List ℕ) (qs : List ℕ) (act : is_active d.state ≡ true)
      (set_up : d.connections ≡ some qs)
      (none_found : find_conn (λ c. (c.sport == th.dport) && (c.dport == th.sport)) qs w
        ≡ ret none w)
      (no_rst : has_bit th_rst th.flags ≡ false) where
    run :
        device_tcp_input sys p th payload w
        ≡ (do send_anon_rst sys p th.dport th.sport th.seq; pure tt) w
    unfolding device_tcp_input
    run = rw (at_p, ◌>>=◌, act, set_up, none_found, no_rst) refl

    -- A packet without RST that no connection of an active, ready device matches is answered with an
    -- RST, which has the packet's ports turned round and acknowledges its number; the call returns,
    -- and connections and clients stay.
    pub device_tcp_input-unknown :
        Ensures
          (λ _ w'.
            (w'.conn ≡ w.conn)
            × (w'.client ≡ w.client)
            × ((r : ℤ) × Transferred d.usbdev
                  (framed d proto_tcp tcphdr_len (rst_for th) []).0
                  u.max_packet_size
                  w.out
                  r
                  w'))
          (device_tcp_input sys p th payload w)
    device_tcp_input-unknown = rw run (
        Ensures-bind (send_anon_rst sys p th.dport th.sport th.seq) (λ _. pure tt)
          (λ _ w'. Answered w') (λ _ w'. Answered w') w send_anon_rst_answers (λ _ w' h. h))
