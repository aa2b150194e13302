-- ===== src/Usb/Disconnect.antt =====
-- The end of a USB device in src/usb.c: usb_disconnect, reap_dead_devices, usb_shutdown.
pub mod Waiting
use usbmuxd.Prelude.{
  Bool, List, Option, [], if◌then◌else◌, is_neg, length, none, some, suc, zero, ℕ, ℤ, ◌+◌, ◌==◌,
  ◌∷◌,
}
use usbmuxd.World.{
  M, Sys, cancelled, emit, free_usb, handle_closed, hang, interface_released, load_usb, pure, ret,
  ◌>>=◌, ◌>>◌,
}
use usbmuxd.Usb.State.{UsbDevice}
use usbmuxd.Device.Lifecycle.{device_remove}

-- `events` stands for `libusb_handle_events_timeout`, which runs the callbacks of the transfers
-- that ended, and `preflight` for `preflight_device_remove_cb`. The wait for the transfers of a
-- device is followed for so many `rounds`.
module _ (sys : Sys) (preflight : ℕ → M (Unit {0})) (events : M ℤ) (rounds : ℕ) where
  -- An object without transfers.
  abbrev pub is_idle : UsbDevice → Bool
  is_idle d = length d.rx_xfers + length d.tx_xfers == 0

  unfoldable pub wait_closed : ℕ → ℕ → M (Unit {0})
  wait_closed zero p = λ w. hang
  wait_closed (suc fuel) p = do
    d ← load_usb p
    let again = wait_closed fuel p
    if is_idle d then pure tt else (do res ← events; if is_neg res then pure tt else again)

  abbrev pub unlist : ℕ → M (Unit {0})
  unlist p w = ret tt (record w { usb_list = sys.collection_remove w.usb_list p })

  -- `libusb_cancel_transfer` of each of some transfers. The callback of a cancelled transfer is
  -- called by `events`.
  unfoldable pub cancel_all : List ℕ → M (Unit {0})
  cancel_all [] = pure tt
  cancel_all (xfer ∷ xfers) = emit (cancelled xfer) >> cancel_all xfers

  -- The transfers are cancelled and waited for; the interface is released, the handle closed and
  -- the object freed.
  unfoldable pub close_device : ℕ → Option ℕ → M (Unit {0})
  unfolding cancel_all wait_closed
  close_device p none = pure tt
  close_device p (some handle) = do
    d ← load_usb p
    cancel_all d.rx_xfers
    cancel_all d.tx_xfers
    wait_closed rounds p
    d' ← load_usb p
    emit (interface_released handle d'.interface)
    emit (handle_closed handle)
    unlist p
    free_usb p

  unfoldable pub usb_disconnect : ℕ → M (Unit {0})
  unfolding close_device
  usb_disconnect p = do d ← load_usb p; close_device p d.handle

  unfoldable pub reap : List ℕ → M (Unit {0})
  unfolding device_remove usb_disconnect
  reap [] = pure tt
  reap (p ∷ ps) = do
    d ← load_usb p
    if d.alive then pure tt else (do device_remove sys preflight p; usb_disconnect p)
    reap ps

  unfoldable pub reap_dead_devices : M (Unit {0})
  unfolding reap
  reap_dead_devices w = reap w.usb_list w

  unfoldable pub disconnect_all : List ℕ → M (Unit {0})
  unfolding device_remove usb_disconnect
  disconnect_all [] = pure tt
  disconnect_all (p ∷ ps) = do device_remove sys preflight p; usb_disconnect p; disconnect_all ps

  unfoldable pub usb_shutdown : M (Unit {0})
  unfolding disconnect_all
  usb_shutdown w = disconnect_all w.usb_list w
