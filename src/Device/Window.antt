-- ===== src/Device/Window.antt =====
-- `update_connection` of src/device.c: how much may be sent, and what to poll for.
pub mod Bounds
use usbmuxd.Prelude.{clear_bit, if◌then◌else◌, ltb, set_bit, sub32, ℕ, ◌-◌, ◌==◌}
use usbmuxd.Device.State.{MuxConnection, conn_ack_pending, ib_size, pollin, pollout}

-- `uint32_t sent = conn->tx_seq - conn->rx_ack`
abbrev pub in_flight : MuxConnection → ℕ
in_flight c = sub32 c.tx_seq c.rx_ack

-- The three steps that set `sendable`.
pub sendable_of : MuxConnection → ℕ
sendable_of c =
    let room = if ltb (in_flight c) c.rx_win then c.rx_win - in_flight c else 0 in
    let room = if ltb c.ob_capacity room then c.ob_capacity else room in
    if ltb c.max_payload room then c.max_payload else room

-- The masks that the function derives from the buffers and the counters.
pub events_of : MuxConnection → ℕ
unfolding sendable_of
events_of c =
    let e = if ltb 0 (sendable_of c) then set_bit pollin c.events else clear_bit pollin c.events in
    if ltb 0 (ib_size c) then set_bit pollout e else clear_bit pollout e

pub flags_of : MuxConnection → ℕ
flags_of c =
    if c.tx_acked == c.tx_ack
    then clear_bit conn_ack_pending c.flags
    else set_bit conn_ack_pending c.flags

-- `update_connection` without the call of `client_set_events` in its last line.
unfoldable pub update_masks : MuxConnection → MuxConnection
unfolding sendable_of events_of flags_of
update_masks c = record c { sendable = sendable_of c; events = events_of c; flags = flags_of c }
