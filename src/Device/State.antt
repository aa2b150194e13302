-- ===== src/Device/State.antt =====
-- The state of src/device.c: `struct mux_device`, `struct mux_connection`, and their constants.
-- A pointer is a number, its address; NULL is `none`. A buffer is the list of its valid bytes, so
-- `ib_size` and `pktlen` are lengths; `ob_buf` is scratch space, of which the capacity matters.
use usbmuxd.Prelude.{Bool, List, Option, false, length, true, ℕ}

-- `enum mux_protocol`
abbrev pub proto_version : ℕ
proto_version = 0

abbrev pub proto_control : ℕ
proto_control = 1

abbrev pub proto_setup : ℕ
proto_setup = 2

abbrev pub proto_tcp : ℕ
proto_tcp = 6

-- `enum mux_dev_state`
pub data DevState : Type 0 where
  init active dead : DevState

abbrev pub is_dead_dev : DevState → Bool
is_dead_dev dead = true
is_dead_dev _ = false

abbrev pub is_active : DevState → Bool
is_active active = true
is_active _ = false

-- `enum mux_conn_state`
pub data ConnState : Type 0 where
  connecting connected refused dying dead : ConnState

abbrev pub is_dead_conn : ConnState → Bool
is_dead_conn dead = true
is_dead_conn _ = false

abbrev pub is_connected : ConnState → Bool
is_connected connected = true
is_connected _ = false

-- No RST is sent for a connection that the device has ended.
abbrev pub is_ended : ConnState → Bool
is_ended refused = true
is_ended dying = true
is_ended _ = false

abbrev pub dev_mru : ℕ
dev_mru = 65536

abbrev pub conn_inbuf_size : ℕ
conn_inbuf_size = 262144

abbrev pub conn_outbuf_size : ℕ
conn_outbuf_size = 65536

abbrev pub ack_timeout : ℕ
ack_timeout = 30

abbrev pub conn_ack_pending : ℕ
conn_ack_pending = 1

-- `USB_MRU` and `USB_MTU` of src/usb.h.
abbrev pub usb_mru : ℕ
usb_mru = 16384

abbrev pub usb_mtu : ℕ
usb_mtu = 49152

-- `POLLIN` and `POLLOUT` of <poll.h>, `TH_*` of <netinet/tcp.h>, and the sizes of the headers.
abbrev pub pollin : ℕ
pollin = 1

abbrev pub pollout : ℕ
pollout = 4

abbrev pub th_syn : ℕ
th_syn = 2

abbrev pub th_rst : ℕ
th_rst = 4

abbrev pub th_ack : ℕ
th_ack = 16

abbrev pub th_syn_ack : ℕ
th_syn_ack = 18

abbrev pub mux_header_len : ℕ
mux_header_len = 16

abbrev pub version_header_len : ℕ
version_header_len = 12

abbrev pub tcphdr_len : ℕ
tcphdr_len = 20

pub record MuxConnection : Type 0 where
  pub dev : ℕ
  pub client : Option ℕ
  pub state : ConnState
  pub sport : ℕ
  pub dport : ℕ
  pub tx_seq : ℕ
  pub tx_ack : ℕ
  pub tx_acked : ℕ
  pub tx_win : ℕ
  pub rx_seq : ℕ
  pub rx_recvd : ℕ
  pub rx_ack : ℕ
  pub rx_win : ℕ
  pub max_payload : ℕ
  pub sendable : ℕ
  pub flags : ℕ
  pub ib_buf : List ℕ
  pub ib_capacity : ℕ
  pub ob_capacity : ℕ
  pub events : ℕ
  pub last_ack_time : ℕ

abbrev pub ib_size : MuxConnection → ℕ
ib_size c = length c.ib_buf

-- `device_add` leaves `connections` unset until the version packet comes: `none` is unset memory.
pub record MuxDevice : Type 0 where
  pub usbdev : ℕ
  pub id : ℕ
  pub state : DevState
  pub visible : Bool
  pub connections : Option (List ℕ)
  pub next_sport : ℕ
  pub pktbuf : List ℕ
  pub preflight_cb_data : Option ℕ
  pub version : ℕ
  pub rx_seq : ℕ
  pub tx_seq : ℕ

abbrev pub pktlen : MuxDevice → ℕ
pktlen d = length d.pktbuf

-- `struct device_info` of src/device.h.
pub record DeviceInfo : Type 0 where
  pub id : ℕ
  pub serial : Option (List ℕ)
  pub location : ℕ
  pub pid : ℕ
  pub speed : ℕ
