-- ===== src/Device/Input.antt =====
-- What src/device.c does with a packet from the device.
pub mod Unknown
use usbmuxd.Prelude.{
  List, [], add32, has_bit, if◌then◌else◌, is_neg, leb, none, some, ℕ, ◌&&◌, ◌*◌, ◌==◌, ◌||◌, ◌∷◌,
}
use usbmuxd.World.{
  M, Sys, call, deref, emit, free_dev, load_conn, load_dev, pure, ret, store_conn, store_dev,
  worker, ◌>>=◌, ◌>>◌,
}
use usbmuxd.Proto.{ok}
use usbmuxd.Device.State.{
  DeviceInfo, active, connected, connecting, dying, init, is_active, proto_setup, refused, th_ack,
  th_rst, th_syn_ack,
}
use usbmuxd.Device.Find.{find_conn}
use usbmuxd.Device.Send.{send_anon_rst, send_packet, send_tcp}
use usbmuxd.Device.Teardown.{update_connection}
use usbmuxd.Device.Connection.{connection_device_input, connection_teardown, send_tcp_ack}
use usbmuxd.Device.Listing.{info_of}
use usbmuxd.Device.Packet.{TcpHeader}
use usbmuxd.Client.Socket.{client_notify_connect}
use usbmuxd.Client.Notices.{client_device_add}

-- `PID_APPLE_T2_COPROCESSOR` of src/usb.h.
abbrev pub pid_apple_t2_coprocessor : ℕ
pid_apple_t2_coprocessor = 34304

module _ (sys : Sys) where
  -- Preflight is skipped for one kind of device and on demand, and done at once where no thread
  -- can be started; else a worker thread announces the device later.
  unfoldable pub preflight_worker_device_add : DeviceInfo → M (Unit {0})
  unfolding client_device_add
  preflight_worker_device_add info w =
      if info.pid == pid_apple_t2_coprocessor || w.no_preflight
      then client_device_add sys info w
      else (do n ← call; if sys.thread n then emit (worker info) else client_device_add sys info) w

  unfoldable pub device_version_input : ℕ → ℕ → M (Unit {0})
  unfolding send_packet info_of preflight_worker_device_add
  device_version_input p major = do
    d ← load_dev p
    elim d.state [
      | init ↦
          if major == 2 || major == 1
          then (do
            store_dev p (record d { version = major })
            if leb 2 major then (do send_packet sys p proto_setup [] (7 ∷ []); pure tt) else pure tt
            d ← load_dev p
            store_dev p (record d { state = active; connections = some [] })
            info ← info_of d
            preflight_worker_device_add info)
          else (do
            λ w. ret tt (record w { device_list = sys.collection_remove w.device_list p })
            free_dev p)
      | _ ↦ pure tt
    ]

  -- The three fields that every packet for a connection carries.
  unfoldable pub note_peer : ℕ → TcpHeader → M (Unit {0})
  note_peer q th = do
    c ← load_conn q
    store_conn q (record c { rx_seq = th.seq; rx_ack = th.ack; rx_win = th.win * 256 })

  -- A packet for a connection whose SYN is not answered yet.
  unfoldable pub connecting_input : ℕ → TcpHeader → M (Unit {0})
  unfolding connection_teardown send_tcp client_notify_connect update_connection
  connecting_input q th = do
    c ← load_conn q
    if th.flags == th_syn_ack
        then (do
          store_conn q (record c {
            tx_seq = add32 c.tx_seq 1;
            tx_ack = add32 c.tx_ack 1;
            rx_recvd = c.rx_seq;
          })
          res ← send_tcp sys q th_ack []
          if is_neg res then connection_teardown sys q else (do
            c ← load_conn q
            store_conn q (record c { state = connected })
            p ← deref c.client
            notified ← client_notify_connect sys p ok
            if is_neg notified
                then (do
                  c ← load_conn q
                  store_conn q (record c { client = none })
                  connection_teardown sys q)
                else pure tt
            update_connection q))
        else (do
          store_conn q (record c { state = if has_bit th_rst th.flags then refused else c.state })
          connection_teardown sys q)

  -- A packet for a connection that is set up.
  unfoldable pub connected_input : ℕ → TcpHeader → List ℕ → M (Unit {0})
  unfolding connection_teardown connection_device_input send_tcp_ack
  connected_input q th payload = do
    c ← load_conn q
    if th.flags == th_ack
        then (do connection_device_input sys q payload; send_tcp_ack sys q; pure tt)
        else (do
          store_conn q (record c { state = if has_bit th_rst th.flags then dying else c.state })
          connection_teardown sys q)

  -- A packet for a connection, by its state.
  unfoldable pub connection_input : ℕ → TcpHeader → List ℕ → M (Unit {0})
  unfolding connecting_input connected_input
  connection_input q th payload = do
    c ← load_conn q
    elim c.state [
      | connecting ↦ connecting_input q th
      | connected ↦ connected_input q th payload
      | _ ↦ pure tt
    ]

  unfoldable pub device_tcp_input : ℕ → TcpHeader → List ℕ → M (Unit {0})
  unfolding find_conn send_anon_rst note_peer connection_input
  device_tcp_input p th payload = do
    d ← load_dev p
    if is_active d.state
        then (do
          qs ← deref d.connections
          found ← find_conn (λ c. (c.sport == th.dport) && (c.dport == th.sport)) qs
          elim found [
            | none ↦
                if has_bit th_rst th.flags
                then pure tt
                else (do send_anon_rst sys p th.dport th.sport th.seq; pure tt)
            | some q ↦ do note_peer q th; connection_input q th payload
          ])
        else pure tt
