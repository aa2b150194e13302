-- ===== src/Device/Window/Bounds.antt =====
-- The flow control that `update_connection` keeps to.
use usbmuxd.Prelude.{
  Bool, Bool-cases, arith, clear_bit, false, has_bit, if◌then◌else◌, inl, inr, ltb, min, not, refl,
  set_bit, true, ℕ, ◌-◌, ◌==◌, ◌↔◌, ◌∙◌, ◌≡◌, ◌≤◌,
}
use usbmuxd.Device.State.{MuxConnection, conn_ack_pending, ib_size, pollin, pollout}
use usbmuxd.Device.Window.{in_flight, sendable_of, update_masks}

sendable-min :
    (c : MuxConnection)
    → (update_masks c).sendable ≡ min (min (c.rx_win - in_flight c) c.ob_capacity) c.max_payload
unfolding update_masks
sendable-min c = ground arith

-- After `update_connection` `sendable` is the largest amount that keeps within the three limits:
-- the window of the device less what is in flight, the output buffer, and one packet's payload.
pub sendable_largest :
    (c : MuxConnection) (n : ℕ)
    → (n ≤ (update_masks c).sendable)
      ↔ ((n ≤ c.rx_win - in_flight c) × (n ≤ c.ob_capacity) × (n ≤ c.max_payload))
sendable_largest c n = (λ h. omega (arith, sendable-min c), λ h. omega (arith, sendable-min c))

-- Setting or clearing a bit decides that bit, and the bit of POLLIN is not that of POLLOUT.
abbrev put_bit : ℕ → Bool → ℕ → ℕ
put_bit m b e = if b then set_bit m e else clear_bit m e

has-put_in : (b : Bool) (e : ℕ) → has_bit 1 (put_bit 1 b e) ≡ b
has-put_in true e = ground arith
has-put_in false e = ground arith

has-put_out : (b : Bool) (e : ℕ) → has_bit 4 (put_bit 4 b e) ≡ b
has-put_out true e = ground arith
has-put_out false e = ground arith

has_in-put_out : (b : Bool) (e : ℕ) → has_bit 1 (put_bit 4 b e) ≡ has_bit 1 e
has_in-put_out true e = ground arith
has_in-put_out false e = ground arith

pending : (a b e : ℕ) → has_bit 1 (if a == b then clear_bit 1 e else set_bit 1 e) ≡ not (a == b)
pending a b e = elim (Bool-cases (a == b)) [
  | inl y ↦ rw y (has-put_in false e)
  | inr n ↦ rw n (has-put_in true e)
]

-- The client is polled for input exactly when something may be sent, and for output exactly when
-- the input buffer holds data; an acknowledgement is pending exactly when the acknowledged count
-- differs from the count last sent. The counters, the buffers and the state stay.
pub update_masks_lem :
    (c : MuxConnection)
    → let c' = update_masks c in
      (has_bit pollin c'.events ≡ ltb 0 c'.sendable)
      × (has_bit pollout c'.events ≡ ltb 0 (ib_size c))
      × (has_bit conn_ack_pending c'.flags ≡ not (c.tx_acked == c.tx_ack))
      × (c'.ib_buf ≡ c.ib_buf)
      × (c'.state ≡ c.state)
      × (c'.tx_seq ≡ c.tx_seq)
      × (c'.tx_ack ≡ c.tx_ack)
unfolding update_masks
update_masks_lem c =
    let more = ltb 0 (sendable_of c) in
    let full = ltb 0 (ib_size c) in
    (
      has_in-put_out full (put_bit 1 more c.events) ∙ has-put_in more c.events,
      has-put_out full (put_bit 1 more c.events),
      pending c.tx_acked c.tx_ack c.flags,
      refl,
      refl,
      refl,
      refl,
    )
