-- ===== src/Device/Data.antt =====
-- `device_data_input` of src/device.c: a transfer from the USB side becomes a packet and goes to
-- the handler of its protocol.
use usbmuxd.Prelude.{
  List, drop, if◌then◌else◌, length, ltb, none, pos, some, sub32, to_int, ℕ, ◌+◌, ◌==◌, ◌||◌,
}
use usbmuxd.World.{M, Sys, emit, load_dev, logged, pure, store_dev, ◌>>=◌, ◌>>◌}
use usbmuxd.Device.State.{
  dev_mru, mux_header_len, proto_control, proto_tcp, proto_version, tcphdr_len, usb_mru,
  version_header_len,
}
use usbmuxd.Device.Find.{find_dev}
use usbmuxd.Device.Send.{mux_header_size}
use usbmuxd.Device.Packet.{
  be16_at, be32_at, byte_at, dropped, gather, mux_length, mux_protocol, tcp_header_at, waiting,
  whole,
}
use usbmuxd.Device.Input.{device_tcp_input, device_version_input}

-- `enum loglevel` of src/log.h, as far as control packets are logged.
abbrev pub ll_error : ℕ
ll_error = 1

abbrev pub ll_warning : ℕ
ll_warning = 2

abbrev pub ll_info : ℕ
ll_info = 4

-- A control packet is logged: the level depends on its first byte, and the precision of the text
-- is `payload_length - 1` as an `int`. With an empty message the text is not printed.
unfoldable pub device_control_input : ℕ → ℕ → M (Unit {0})
device_control_input first payload_length =
    let rest = to_int (sub32 payload_length 1) in
    if payload_length == 0
    then emit (logged ll_warning (pos 0))
    else if first == 3
    then emit (logged ll_error (if ltb 1 payload_length then rest else pos 0))
    else if first == 5
    then emit (logged ll_warning (if ltb 1 payload_length then rest else pos 0))
    else if first == 7
    then (if ltb 1 payload_length
        then emit (logged ll_info rest)
        else emit (logged ll_warning (pos 0)))
    else emit (logged ll_warning rest)

module _ (sys : Sys) where
  -- `dev->rx_seq = ntohs(mhdr->rx_seq)`, for the newer header.
  unfoldable pub note_rx_seq : ℕ → List ℕ → M (Unit {0})
  note_rx_seq p buf = do
    d ← load_dev p
    if ltb d.version 2
        then pure tt
        else store_dev p (record d { rx_seq = be16_at sys.stale buf 14 })

  -- The switch over the protocol of a whole packet.
  unfoldable pub dispatch : ℕ → List ℕ → M (Unit {0})
  unfolding note_rx_seq device_version_input device_control_input device_tcp_input tcp_header_at
  dispatch p buf = do
    d ← load_dev p
    let start = mux_header_size d.version
    let proto = mux_protocol sys.stale buf
    if mux_length sys.stale buf == length buf
        then (do
          note_rx_seq p buf
          if proto == proto_version
              then (if ltb (length buf) (start + version_header_len)
                  then pure tt
                  else device_version_input sys p (be32_at sys.stale buf start))
              else if proto == proto_control
              then device_control_input (byte_at sys.stale buf mux_header_len)
                  (sub32 (length buf) start)
              else if proto == proto_tcp
              then (if ltb (length buf) (start + tcphdr_len)
                  then pure tt
                  else device_tcp_input sys p (tcp_header_at sys.stale buf start)
                      (drop (start + tcphdr_len) buf))
              else pure tt)
        else pure tt

  unfoldable pub device_data_input : ℕ → List ℕ → M (Unit {0})
  unfolding find_dev gather dispatch
  device_data_input usbdev buffer w =
      (do
        found ← find_dev (λ d. d.usbdev == usbdev) w.device_list
        elim found [
          | none ↦ pure tt
          | some p ↦
              if length buffer == 0 || (ltb usb_mru (length buffer) || ltb dev_mru (length buffer))
              then pure tt
              else (do
                d ← load_dev p
                elim (gather sys.stale d buffer) [
                  | dropped d' ↦ store_dev p d'
                  | waiting d' ↦ store_dev p d'
                  | whole d' buf ↦ do store_dev p d'; dispatch p buf
                ])
        ])
        w
