-- ===== src/Device/Lifecycle.antt =====
-- Devices coming and going in src/device.c, and the timer for acknowledgements.
pub mod Timely
use usbmuxd.Prelude.{
  Bool, List, [], be32, false, has_bit, if◌then◌else◌, is_neg, ltb, none, pos, some, sub64, ℕ, ℤ,
  ◌&&◌, ◌++◌, ◌-◌, ◌==◌, ◌∷◌,
}
use usbmuxd.World.{
  M, Sys, deref, free_dev, load_conn, load_dev, malloc, pure, ret, store_dev, ◌>>=◌, ◌>>◌,
}
use usbmuxd.Device.State.{
  MuxConnection, MuxDevice, ack_timeout, conn_ack_pending, dead, init, is_active, is_connected,
  proto_version,
}
use usbmuxd.Device.Find.{find_dev, get_next_device_id}
use usbmuxd.Device.Send.{mstime64, send_packet}
use usbmuxd.Device.Connection.{connection_teardown, send_tcp_ack}
use usbmuxd.Client.Notices.{client_device_remove}

-- The fields that `device_add` sets. `rx_seq` and `tx_seq` are not set before the packet that
-- starts the newer protocol sets them.
unfoldable pub new_device : ℕ → ℕ → MuxDevice
new_device usbdev id = record {
  usbdev = usbdev;
  id = id;
  state = init;
  visible = false;
  connections = none;
  next_sport = 1;
  pktbuf = [];
  preflight_cb_data = none;
  version = 0;
  rx_seq = 0;
  tx_seq = 0;
}

-- The connections whose acknowledgement is due are asked for one by one.
abbrev pub owes_ack : MuxConnection → Bool
owes_ack c = is_connected c.state && has_bit conn_ack_pending c.flags

-- `(uint64_t)-1LL`
abbrev pub no_ack_time : ℕ
no_ack_time = 18446744073709551615

-- The smaller of the time so far and that of a connection which owes an acknowledgement.
abbrev pub older : ℕ → MuxConnection → ℕ
older oldest c = if owes_ack c && ltb c.last_ack_time oldest then c.last_ack_time else oldest

unfoldable pub oldest_conn : List ℕ → ℕ → M ℕ
oldest_conn [] oldest = pure oldest
oldest_conn (q ∷ qs) oldest = do c ← load_conn q; oldest_conn qs (older oldest c)

unfoldable pub oldest_dev : List ℕ → ℕ → M ℕ
unfolding oldest_conn
oldest_dev [] oldest = pure oldest
oldest_dev (p ∷ ps) oldest = do
  d ← load_dev p
  o ←
      (if is_active d.state
        then (do qs ← deref d.connections; oldest_conn qs oldest)
        else pure oldest)
  oldest_dev ps o

-- What `device_get_timeout` makes of the oldest time and the clock.
unfoldable pub timeout_of : ℕ → ℕ → ℕ
timeout_of oldest ct =
    if oldest == no_ack_time
    then 100000
    else if ltb ack_timeout (sub64 ct oldest)
    then 0
    else ack_timeout - sub64 ct oldest

module _ (sys : Sys) where
  unfoldable pub device_add : ℕ → M ℤ
  unfolding get_next_device_id new_device send_packet
  device_add usbdev = do
    id ← get_next_device_id
    p ← malloc
    store_dev p (new_device usbdev id)
    res ← send_packet sys p proto_version (be32 2 ++ (be32 0 ++ be32 0)) []
    if is_neg res then (do free_dev p; pure res) else (do
      λ w. ret tt (record w { device_list = sys.collection_add w.device_list p })
      pure (pos 0))

  unfoldable pub teardown_all : List ℕ → M (Unit {0})
  unfolding connection_teardown
  teardown_all [] = pure tt
  teardown_all (q ∷ qs) = do connection_teardown sys q; teardown_all qs

  -- The connections of an active device end, and the clients hear of its removal.
  unfoldable pub end_device : ℕ → M (Unit {0})
  unfolding teardown_all client_device_remove
  end_device p = do
    d ← load_dev p
    if is_active d.state
        then (do
          store_dev p (record d { state = dead })
          qs ← deref d.connections
          teardown_all qs
          client_device_remove sys d.id)
        else pure tt

  -- `preflight` stands for `preflight_device_remove_cb`.
  unfoldable pub device_remove : (ℕ → M (Unit {0})) → ℕ → M (Unit {0})
  unfolding find_dev end_device
  device_remove preflight usbdev w =
      (do
        found ← find_dev (λ d. d.usbdev == usbdev) w.device_list
        elim found [
          | none ↦ pure tt
          | some p ↦ do
            end_device p
            d ← load_dev p
            elim d.preflight_cb_data [ none ↦ pure tt | some cb ↦ preflight cb ]
            λ w. ret tt (record w { device_list = sys.collection_remove w.device_list p })
            free_dev p
        ])
        w

  unfoldable pub device_get_timeout : M ℕ
  unfolding oldest_dev mstime64 timeout_of
  device_get_timeout w =
      (do
        oldest ← oldest_dev w.device_list no_ack_time
        ct ← mstime64 sys
        pure (timeout_of oldest ct))
        w

  unfoldable pub check_conns : ℕ → List ℕ → M (Unit {0})
  unfolding send_tcp_ack
  check_conns ct [] = pure tt
  check_conns ct (q ∷ qs) = do
    c ← load_conn q
    if owes_ack c && ltb ack_timeout (sub64 ct c.last_ack_time)
        then (do send_tcp_ack sys q; pure tt)
        else pure tt
    check_conns ct qs

  unfoldable pub check_devs : ℕ → List ℕ → M (Unit {0})
  unfolding check_conns
  check_devs ct [] = pure tt
  check_devs ct (p ∷ ps) = do
    d ← load_dev p
    if is_active d.state then (do qs ← deref d.connections; check_conns ct qs) else pure tt
    check_devs ct ps

  unfoldable pub device_check_timeouts : M (Unit {0})
  unfolding mstime64 check_devs
  device_check_timeouts = do ct ← mstime64 sys; λ w. check_devs ct w.device_list w
