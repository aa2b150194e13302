-- ===== src/Tests/Fixture.antt =====
-- A small daemon: one USB device, its multiplexer device with one connection, two clients.
use usbmuxd.Prelude.{
  List, Option, [], false, if◌then◌else◌, inl, none, pos, some, take, true, ℕ, ◌++◌, ◌+◌, ◌==◌, ◌∷◌,
}
use usbmuxd.World.{Sys, World, pure, sent}
use usbmuxd.Usb.State.{Configuration, Descriptor, UsbDevice, speed_high}
use usbmuxd.Device.State.{
  MuxConnection, MuxDevice, active, conn_inbuf_size, conn_outbuf_size, connected,
}
use usbmuxd.Client.State.{MuxClient, cmd_buf_size, connected, connecting2, listen, reply_buf_size}
use usbmuxd.Client.Replies.{Conf}

-- A header of 16 bytes without payload, version 0, message 3, tag 0.
abbrev pub bare_header : List ℕ
bare_header = 16 ∷ 0 ∷ 0 ∷ 0 ∷ 0 ∷ 0 ∷ 0 ∷ 0 ∷ 3 ∷ 0 ∷ 0 ∷ 0 ∷ 0 ∷ 0 ∷ 0 ∷ 0 ∷ []

-- The list without the first such element.
abbrev without : List ℕ → ℕ → List ℕ
without [] x = []
without (y ∷ ys) x = if y == x then ys else y ∷ without ys x

abbrev descriptor : Descriptor
descriptor = record { vendor = 1452; product = 4776; serial_index = 3; configurations = 4 }

-- A configuration with the multiplexer's interface.
abbrev pub muxed : ℕ → Configuration
muxed j = record {
  value = j;
  interfaces =
      record { class = 255; subclass = 254; protocol = 2; number = 1; endpoints = 4 ∷ 133 ∷ [] }
      ∷ [];
}

-- An outside where every call succeeds.
abbrev pub benign : Sys
benign = record {
  submit = λ n. pos 0;
  send = λ n len. sent len;
  recv = λ n len. some (take len bare_header);
  elapsed = λ n. 1;
  realloc = λ n. true;
  to_xml = λ d. some (1 ∷ 2 ∷ []);
  from_xml = λ b. none;
  from_memory = λ b. none;
  buffer_of = some;
  refused = λ n. none;
  time = λ n. 1000;
  rand = λ seed n. seed + n;
  bus_number = λ dev. 1;
  device_address = λ dev. dev;
  device_descriptor = λ n dev. some descriptor;
  open_device = λ n dev. some dev;
  config_descriptor = λ n dev j. some (muxed j);
  max_packet = λ dev ep. pos 512;
  device_speed = λ dev. speed_high;
  get_configuration = λ n. some 4;
  set_configuration = λ n. pos 0;
  kernel_driver_active = λ n. pos 0;
  claim_interface = λ n. pos 0;
  alloc_transfer = λ n. true;
  get_device_list = λ n. inl (5 ∷ []);
  next_timeout = λ n. none;
  pollfds = λ n. some ((3, 1) ∷ []);
  device_mode = none;
  thread = λ n. true;
  stale = λ i. 0;
  collection_add = λ xs x. xs ++ (x ∷ []);
  collection_remove = without;
}

abbrev pub no_conf : Conf
no_conf = record {
  config_get_system_buid = pure [];
  config_get_device_record = λ id. pure none;
  config_set_device_record = λ id b. pure (pos 0);
  config_remove_device_record = λ id. pure (pos 0);
}

abbrev pub plug : UsbDevice
plug = record {
  handle = some 1;
  bus = 1;
  address = 5;
  serial = 65 ∷ 66 ∷ [];
  alive = true;
  interface = 1;
  ep_in = 133;
  ep_out = 4;
  rx_xfers = [];
  tx_xfers = [];
  max_packet_size = 512;
  speed = 480000000;
  devdesc = descriptor;
}

abbrev pub phone : MuxDevice
phone = record {
  usbdev = 1;
  id = 1;
  state = active;
  visible = true;
  connections = some (3 ∷ []);
  next_sport = 2;
  pktbuf = [];
  preflight_cb_data = none;
  version = 2;
  rx_seq = 0;
  tx_seq = 1;
}

abbrev pub stream : MuxConnection
stream = record {
  dev = 2;
  client = some 4;
  state = connected;
  sport = 1;
  dport = 62078;
  tx_seq = 1;
  tx_ack = 1;
  tx_acked = 1;
  tx_win = 131072;
  rx_seq = 0;
  rx_recvd = 0;
  rx_ack = 1;
  rx_win = 131072;
  max_payload = 49116;
  sendable = 49116;
  flags = 0;
  ib_buf = 7 ∷ 8 ∷ 9 ∷ [];
  ib_capacity = conn_inbuf_size;
  ob_capacity = conn_outbuf_size;
  events = 0;
  last_ack_time = 0;
}

-- A client that listens, and one in the middle of connecting whose answer waits.
abbrev pub listener : MuxClient
listener = record {
  fd = 9;
  ob_buf = some [];
  ob_capacity = reply_buf_size;
  ib_buf = some [];
  ib_capacity = cmd_buf_size;
  events = 1;
  devents = 0;
  connect_tag = 0;
  connect_device = 0;
  state = listen;
  proto_version = 0;
  number = 1;
  info = none;
}

abbrev pub caller : MuxClient
caller = record {
  fd = 10;
  ob_buf = some (1 ∷ 2 ∷ 3 ∷ []);
  ob_capacity = reply_buf_size;
  ib_buf = none;
  ib_capacity = cmd_buf_size;
  events = 4;
  devents = 1;
  connect_tag = 6;
  connect_device = 1;
  state = connecting2;
  proto_version = 1;
  number = 2;
  info = none;
}

abbrev pub one_at : {A : Type 0} → ℕ → A → ℕ → Option A
one_at p a q = if q == p then some a else none

abbrev pub start : World
start = record {
  calls = 0;
  clock = 0;
  fresh = 100;
  usb = one_at 1 plug;
  dev = one_at 2 phone;
  conn = one_at 3 stream;
  client = λ q. if q == 4 then some caller else one_at 5 listener q;
  cb_data = λ q. none;
  device_list = 2 ∷ [];
  client_list = 4 ∷ 5 ∷ [];
  next_device_id = 1;
  client_number = 2;
  no_preflight = false;
  disk = λ p. none;
  config_dir = none;
  usb_list = 1 ∷ [];
  devlist_failures = 0;
  device_polling = true;
  device_hotplug = true;
  next_dev_poll_time = record { tv_sec = 1; tv_usec = 0 };
  out = [];
}
