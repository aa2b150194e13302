-- ===== src/Usb/Transfer.antt =====
-- Bulk transfers to a device in src/usb.c: `usb_send`, and the callback of a finished transfer.
pub mod Packets
use usbmuxd.Prelude.{List, [], if◌then◌else◌, is_neg, length, pos, ℕ, ℤ, ◌%◌, ◌==◌}
use usbmuxd.World.{
  M, Sys, call, crash, emit, load_usb, malloc, packet, pure, store_usb, ◌>>=◌, ◌>>◌,
}

module _ (sys : Sys) where
  -- One transfer of the bytes to the device: allocate, fill, submit, and add it to `tx_xfers`.
  unfoldable pub submit_tx : ℕ → List ℕ → M ℤ
  submit_tx p buf = do
    xfer ← malloc
    n ← call
    let res = sys.submit n
    if is_neg res then pure res else (do
      d ← load_usb p
      store_usb p (record d { tx_xfers = sys.collection_add d.tx_xfers xfer })
      emit (packet p buf)
      pure (pos 0))

  -- A packet that fills whole USB packets is followed by a zero length packet.
  unfoldable pub usb_send : ℕ → List ℕ → M ℤ
  unfolding submit_tx
  usb_send p buf = do
    res ← submit_tx p buf
    if is_neg res then pure res else (do
      d ← load_usb p
      if d.max_packet_size == 0
          then crash
          else if length buf % d.max_packet_size == 0
          then submit_tx p []
          else pure (pos 0))
