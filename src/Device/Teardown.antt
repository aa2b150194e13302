-- ===== src/Device/Teardown.antt =====
-- The end of a connection in src/device.c, as far as it does not depend on `client_close`: that is
-- an argument here, since the two functions call one another. `device_abort_connect` clears
-- `conn->client` before it tears down, so its teardown never comes to that call.
pub mod Flush
use usbmuxd.Prelude.{
  Option, [], drop, false, has_bit, if◌then◌else◌, ltb, negsuc, none, pos, some, sub64, suc, true,
  zero, ℕ, ◌&&◌, ◌*◌, ◌+◌, ◌==◌, ◌||◌,
}
use usbmuxd.World.{
  M, Sys, crash, deref, free_conn, hang, load_conn, load_dev, pass, pure, store_conn, store_dev,
  ◌>>=◌, ◌>>◌,
}
use usbmuxd.Device.State.{
  connecting, dead, ib_size, is_dead_conn, is_dead_dev, is_ended, pollout, refused, th_rst,
}
use usbmuxd.Device.Find.{get_mux_connection}
use usbmuxd.Device.Send.{mstime64, send_tcp}
use usbmuxd.Device.Window.{update_masks}
use usbmuxd.Client.Socket.{client_notify_connect, client_set_events, client_write}
use usbmuxd.Proto.{conn_refused}

-- The last line of `update_connection`; a client that is NULL is read.
unfoldable pub tell_client : Option ℕ → ℕ → M (Unit {0})
unfolding client_set_events
tell_client none events = crash
tell_client (some p) events = do client_set_events p events; pure tt

unfoldable pub update_connection : ℕ → M (Unit {0})
unfolding tell_client
update_connection q = do
  c ← load_conn q
  store_conn q (update_masks c)
  tell_client c.client (update_masks c).events

-- `usleep(10000)`: at least ten milliseconds pass.
abbrev pub flush_pause : ℕ
flush_pause = 10

abbrev pub flush_limit : ℕ
flush_limit = 1000

-- A round that sends nothing waits ten milliseconds, and a thousand are the limit.
abbrev pub flush_rounds : ℕ → ℕ
flush_rounds size = 103 * (size + 1)

module _ (sys : Sys) where
  -- The `while(1)` that writes the input buffer out to the client.
  unfoldable pub flush : ℕ → ℕ → ℕ → ℕ → M (Unit {0})
  unfolding client_write mstime64
  flush zero q p last w = hang
  flush (suc fuel) q p last w =
      (do
        c ← load_conn q
        size ← client_write sys p c.ib_buf
        elim size [
          | negsuc e ↦ pure tt
          | pos zero ↦ do
            t ← mstime64 sys
            elim (ltb flush_limit (sub64 t last)) [
              | true ↦ pure tt
              | false ↦ do pass flush_pause; flush fuel q p last
            ]
          | pos (suc k) ↦ elim (suc k == ib_size c) [
            | true ↦ store_conn q (record c { ib_buf = [] })
            | false ↦ do
              store_conn q (record c { ib_buf = drop (suc k) c.ib_buf })
              t ← mstime64 sys
              flush fuel q p t
          ]
        ])
        w

  -- The RST, unless the device or the connection is gone.
  unfoldable pub reset_peer : ℕ → M (Unit {0})
  unfolding send_tcp
  reset_peer q = do
    c ← load_conn q
    d ← load_dev c.dev
    if is_dead_dev d.state || is_ended c.state
        then pure tt
        else (do send_tcp sys q th_rst []; pure tt)

  -- What is left in the input buffer goes out, if the client can take it.
  unfoldable pub flush_to_client : ℕ → ℕ → M (Unit {0})
  unfolding flush
  flush_to_client q p = do
    c ← load_conn q
    if has_bit pollout c.events && ltb 0 (ib_size c)
        then (do t ← mstime64 sys; flush (flush_rounds (ib_size c)) q p t)
        else pure tt

  -- The client is told of a refused connection, and is closed with any other.
  unfoldable pub leave_client : (ℕ → M (Unit {0})) → ℕ → ℕ → M (Unit {0})
  unfolding flush_to_client client_notify_connect
  leave_client close q p = do
    c ← load_conn q
    elim c.state [
      | refused ↦ do client_notify_connect sys p conn_refused; pure tt
      | connecting ↦ do client_notify_connect sys p conn_refused; pure tt
      | _ ↦ do store_conn q (record c { state = dead }); flush_to_client q p; close p
    ]

  unfoldable pub remove_conn : ℕ → M (Unit {0})
  remove_conn q = do
    c ← load_conn q
    d ← load_dev c.dev
    qs ← deref d.connections
    store_dev c.dev (record d { connections = some (sys.collection_remove qs q) })
    free_conn q

  -- What is done for a connection that is not being torn down already.
  unfoldable pub end_connection : (ℕ → M (Unit {0})) → ℕ → Option ℕ → M (Unit {0})
  unfolding reset_peer leave_client remove_conn
  end_connection close q client = do
    reset_peer q
    elim client [ none ↦ pure tt | some p ↦ leave_client close q p ]
    remove_conn q

  unfoldable pub teardown : (ℕ → M (Unit {0})) → ℕ → M (Unit {0})
  unfolding end_connection
  teardown close q = do
    c ← load_conn q
    if is_dead_conn c.state then pure tt else end_connection close q c.client

  unfoldable pub device_abort_connect : ℕ → ℕ → M (Unit {0})
  unfolding get_mux_connection teardown
  device_abort_connect id client = do
    found ← get_mux_connection id client
    elim found [
      | none ↦ pure tt
      | some q ↦ do
        c ← load_conn q
        store_conn q (record c { client = none })
        teardown (λ p. pure tt) q
    ]
