-- ===== src/Usb/Getters.antt =====
-- What src/usb.c tells of a device. A device whose handle is closed has no answers.
use usbmuxd.Prelude.{List, Option, m16, none, some, ℕ, ◌*◌, ◌+◌}
use usbmuxd.World.{M, load_usb, pure, ◌>>=◌}
use usbmuxd.Usb.State.{UsbDevice}

module _ {A : Type 0} where
  -- `if(!dev->handle) { return ...; }`
  abbrev if_open : A → (UsbDevice → A) → ℕ → M A
  if_open missing open_value p = do
    d ← load_usb p
    elim d.handle [ none ↦ pure missing | some h ↦ pure (open_value d) ]

unfoldable pub usb_get_serial : ℕ → M (Option (List ℕ))
usb_get_serial = if_open none (λ d. some d.serial)

-- `(dev->bus << 16) | dev->address`; both are one byte.
unfoldable pub usb_get_location : ℕ → M ℕ
usb_get_location = if_open 0 (λ d. d.bus * m16 + d.address)

unfoldable pub usb_get_pid : ℕ → M ℕ
usb_get_pid = if_open 0 (λ d. d.devdesc.product)

unfoldable pub usb_get_speed : ℕ → M ℕ
usb_get_speed = if_open 0 (λ d. d.speed)
