-- ===== src/Device/Connection.antt =====
-- The life of a connection in src/device.c: setting it up, moving data between the client and the
-- device, and tearing it down.
pub mod Start
pub mod Stream
use usbmuxd.Prelude.{
  Bool, List, [], add32, drop, false, has_bit, if◌then◌else◌, is_neg, length, ltb, negsuc, none,
  pos, some, suc, true, ℕ, ℤ, ◌&&◌, ◌-◌, ◌==◌, ◌∷◌,
}
use usbmuxd.World.{
  M, Sys, deref, free_conn, load_conn, load_dev, malloc, pure, store_conn, store_dev, ◌>>=◌, ◌>>◌,
}
use usbmuxd.Proto.{Result, bad_dev, conn_refused, result_code}
use usbmuxd.Device.State.{
  MuxConnection, conn_inbuf_size, conn_outbuf_size, connecting, ib_size, pollin, pollout, th_ack,
  th_syn,
}
use usbmuxd.Device.Find.{find_sport, get_mux_connection, get_mux_device_for_id}
use usbmuxd.Device.Send.{send_tcp}
use usbmuxd.Device.Teardown.{teardown, update_connection}
use usbmuxd.Client.Socket.{client_read, client_write}
use usbmuxd.Client.Output.{memcpy_end}
use usbmuxd.Client.Close.{client_close}

-- `USB_MTU - sizeof(struct mux_header) - sizeof(struct tcphdr)`
abbrev pub max_payload_len : ℕ
max_payload_len = 49116

-- The fields that `device_start_connect` sets; `memset` has cleared the others.
unfoldable pub new_connection : ℕ → ℕ → ℕ → ℕ → MuxConnection
new_connection dev client sport dport = record {
  dev = dev;
  client = some client;
  state = connecting;
  sport = sport;
  dport = dport;
  tx_seq = 0;
  tx_ack = 0;
  tx_acked = 0;
  tx_win = 131072;
  rx_seq = 0;
  rx_recvd = 0;
  rx_ack = 0;
  rx_win = 0;
  max_payload = max_payload_len;
  sendable = 0;
  flags = 0;
  ib_buf = [];
  ib_capacity = conn_inbuf_size;
  ob_capacity = conn_outbuf_size;
  events = 0;
  last_ack_time = 0;
}

-- A `RESULT_*` as a negative `int`.
abbrev pub negated : Result → ℤ
negated r = negsuc (result_code r - 1)

module _ (sys : Sys) where
  unfoldable pub connection_teardown : ℕ → M (Unit {0})
  unfolding teardown client_close
  connection_teardown = teardown sys (client_close sys)

  -- What follows the search for a port: the SYN goes out before the connection is in the
  -- collection.
  unfoldable pub connect_from : ℕ → ℕ → ℕ → ℕ → M ℤ
  unfolding new_connection send_tcp result_code
  connect_from p dport client sport = if sport == 0 then pure (negated bad_dev) else (do
    q ← malloc
    store_conn q (new_connection p client sport dport)
    res ← send_tcp sys q th_syn []
    if is_neg res then (do free_conn q; pure (negated conn_refused)) else (do
      d ← load_dev p
      qs ← deref d.connections
      store_dev p (record d { connections = some (sys.collection_add qs q) })
      pure (pos 0)))

  unfoldable pub device_start_connect : ℕ → ℕ → ℕ → M ℤ
  unfolding get_mux_device_for_id find_sport connect_from
  device_start_connect id dport client = do
    found ← get_mux_device_for_id id
    elim found [
      | none ↦ pure (negated bad_dev)
      | some p ↦ do sport ← find_sport p; connect_from p dport client sport
    ]

  unfoldable pub send_tcp_ack : ℕ → M ℤ
  unfolding send_tcp connection_teardown update_connection
  send_tcp_ack q = do
    res ← send_tcp sys q th_ack []
    if is_neg res
        then (do connection_teardown q; pure (negsuc 0))
        else (do update_connection q; pure (pos 0))

  unfoldable pub connection_device_input : ℕ → List ℕ → M (Unit {0})
  unfolding connection_teardown memcpy_end update_connection
  connection_device_input q payload = do
    c ← load_conn q
    if ltb c.ib_capacity (add32 (ib_size c) (length payload)) then connection_teardown q else (do
      b ← memcpy_end c.ib_capacity (some c.ib_buf) payload
      store_conn q (record c { ib_buf = b; rx_recvd = add32 c.rx_recvd (length payload) })
      update_connection q)

  -- The first half of `device_client_process`: the input buffer goes to the client. `false` is
  -- the early return after a teardown.
  unfoldable pub drain_to_client : ℕ → ℕ → ℕ → M Bool
  unfolding client_write connection_teardown
  drain_to_client q p events = do
    c ← load_conn q
    if has_bit pollout events && ltb 0 (ib_size c)
        then (do
          size ← client_write sys p c.ib_buf
          elim size [
            | pos (suc k) ↦ do
              store_conn q
                  (record c { tx_ack = add32 c.tx_ack (suc k); ib_buf = drop (suc k) c.ib_buf })
              pure true
            | _ ↦ do connection_teardown q; pure false
          ])
        else pure true

  -- The second half: what the client sent goes to the device.
  unfoldable pub pump_to_device : ℕ → ℕ → ℕ → M Bool
  unfolding client_read connection_teardown send_tcp
  pump_to_device q p events = do
    c ← load_conn q
    if has_bit pollin events && ltb 0 c.sendable
        then (do
          got ← client_read sys p c.sendable
          elim got [
            | some (x ∷ xs) ↦ do
              res ← send_tcp sys q th_ack (x ∷ xs)
              if is_neg res then (do connection_teardown q; pure false) else (do
                c ← load_conn q
                store_conn q (record c { tx_seq = add32 c.tx_seq (length (x ∷ xs)) })
                pure true)
            | _ ↦ do connection_teardown q; pure false
          ])
        else pure true

  -- `conn->client` is the client that the connection was looked up by.
  unfoldable pub device_client_process : ℕ → ℕ → ℕ → M (Unit {0})
  unfolding get_mux_connection drain_to_client pump_to_device update_connection
  device_client_process id client events = do
    found ← get_mux_connection id client
    elim found [
      | none ↦ pure tt
      | some q ↦ do
        drained ← drain_to_client q client events
        if drained
            then (do
              pumped ← pump_to_device q client events
              if pumped then update_connection q else pure tt)
            else pure tt
    ]
