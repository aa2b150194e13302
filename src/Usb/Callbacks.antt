-- ===== src/Usb/Callbacks.antt =====
-- The callbacks of src/usb.c that libusb calls when a transfer has ended, and the loops that read.
use usbmuxd.Prelude.{List, false, pos, zero, ℕ, ℤ}
use usbmuxd.World.{M, Sys, call, load_usb, malloc, pure, store_usb, ◌>>=◌, ◌>>◌}
use usbmuxd.Device.Data.{device_data_input}

-- `LIBUSB_TRANSFER_COMPLETED` with the bytes transferred, and every other status.
pub data Status : Type 0 where
  completed : List ℕ → Status
  ended : Status

-- A device whose transfer failed is reaped later.
abbrev mark_dead : ℕ → M (Unit {0})
mark_dead p = do d ← load_usb p; store_usb p (record d { alive = false })

module _ (sys : Sys) where
  unfoldable pub tx_callback : ℕ → ℕ → Status → M (Unit {0})
  tx_callback p xfer status = do
    elim status [ completed bytes ↦ pure tt | ended ↦ mark_dead p ]
    d ← load_usb p
    store_usb p (record d { tx_xfers = sys.collection_remove d.tx_xfers xfer })

  -- A transfer that was completed is submitted again, whatever comes of it.
  unfoldable pub rx_callback : ℕ → ℕ → Status → M (Unit {0})
  unfolding device_data_input
  rx_callback p xfer (completed bytes) = do device_data_input sys p bytes; n ← call; pure tt
  rx_callback p xfer ended = do
    d ← load_usb p
    store_usb p (record d { rx_xfers = sys.collection_remove d.rx_xfers xfer })
    mark_dead p

  -- Only 0 is a success here.
  unfoldable pub start_rx_loop : ℕ → M ℤ
  start_rx_loop p = do
    xfer ← malloc
    n ← call
    elim (sys.submit n) [
      | pos zero ↦ do
        d ← load_usb p
        store_usb p (record d { rx_xfers = sys.collection_add d.rx_xfers xfer })
        pure (pos 0)
      | res ↦ pure res
    ]
