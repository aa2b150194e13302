-- ===== src/Usb/Setup/Places.antt =====
-- The list of USB devices in src/usb.c never has two devices at one place of the bus.
use usbmuxd.Prelude.{
  Bool, Bool-cases, Option, false, inl, inr, negsuc, none, pos, refl, some, suc, true, zero, ℕ, ℤ,
  ◌<◌, ◌≡◌, ◌⊎◌,
}
use usbmuxd.World.{Documented, Ensures, Ensures-bind, Sys, World, count, pure, update_self, ◌>>=◌}
use usbmuxd.Usb.State.{Descriptor, UsbDevice}
use usbmuxd.Usb.Setup.{
  add_unless, asked, checked, find_device, find_usb, is_at, is_supported, list_new, new_usb_device,
  open_new, set_alive, submit_vendor_specific, usb_device_add,
}
use usbmuxd.Usb.Setup.Search.{Searched, find_usb-Searched}
use usbmuxd.Usb.Setup.Apart.{Places, add-Places, called-Places, store-Places}

module _ (sys : Sys) (documented : Documented sys) (dev : ℕ) where
  abbrev Kept : ℤ → World → Type 0
  Kept r w = Places w

  set_alive-Places :
      (p : ℕ) (b : Bool) (d : UsbDevice) (w : World)
      → w.usb p ≡ some d
      → Places w
      → Ensures (λ u w'. Places w') (set_alive p b w)
  set_alive-Places p b d w at h =
      rw (at, ◌>>=◌) (store-Places p d (record d { alive = b }) w at refl refl h)

  asked-Kept :
      (p : ℕ) (r : ℤ) (d : UsbDevice) (w : World)
      → w.usb p ≡ some d
      → Places w
      → Ensures Kept (asked sys p r w)
  asked-Kept p (pos zero) d w at h = h
  asked-Kept p (pos (suc n)) d w at h =
      Ensures-bind (set_alive p false) (λ u. pure (negsuc 0)) (λ u w'. Places w') Kept w
        (set_alive-Places p false d w at h) (λ u w' h'. h')
  asked-Kept p (negsuc n) d w at h =
      Ensures-bind (set_alive p false) (λ u. pure (negsuc 0)) (λ u w'. Places w') Kept w
        (set_alive-Places p false d w at h) (λ u w' h'. h')

  -- No listed device stands at that place.
  abbrev Free : ℕ → ℕ → World → Type 0
  Free bus address w =
      (q : ℕ) (e : UsbDevice)
      → 0 < count q w.usb_list
      → w.usb q ≡ some e
      → is_at bus address e ≡ false

  list_new-Kept :
      (bus address : ℕ) (devdesc : Descriptor) (o : Option ℕ) (w : World)
      → Places w
      → Free bus address w
      → Ensures Kept (list_new sys dev bus address devdesc o w)
  unfolding submit_vendor_specific
  list_new-Kept bus address devdesc none w h free = h
  list_new-Kept bus address devdesc (some handle) w h free =
      asked-Kept w.fresh (sys.submit w.calls) (new_usb_device handle bus address devdesc) _
        (update_self w.usb w.fresh (some (new_usb_device handle bus address devdesc)))
        (called-Places (suc w.calls) _
          (add-Places sys documented (new_usb_device handle bus address devdesc) w h free))

  checked-Kept :
      (bus address : ℕ) (o : Option Descriptor) (w : World)
      → Places w
      → Free bus address w
      → Ensures Kept (checked sys dev bus address o w)
  unfolding open_new
  checked-Kept bus address none w h free = h
  checked-Kept bus address (some devdesc) w h free = elim (Bool-cases (is_supported devdesc)) [
    | inl good ↦ rw good (
        list_new-Kept bus address devdesc (sys.open_device w.calls dev)
          (record w { calls = suc w.calls }) (called-Places _ w h) free)
    | inr bad ↦ rw bad h
  ]

  add_unless-Kept :
      (bus address : ℕ) (r : Option ℕ) (w : World)
      → Places w
      → ((p : ℕ) × (r ≡ some p) × (0 < count p w.usb_list)) ⊎ ((r ≡ none) × Free bus address w)
      → Ensures Kept (add_unless sys dev bus address r w)
  unfolding add_unless
  add_unless-Kept bus address r w h (inl (p, e, l)) = rw e (
      Ensures-bind (set_alive p true) (λ u. pure (pos 0)) (λ u w'. Places w') Kept w
        (set_alive-Places p true (h.live p l).0 w (h.live p l).1 h) (λ u w' h'. h'))
  add_unless-Kept bus address r w h (inr (e, free)) = rw e (
      checked-Kept bus address (sys.device_descriptor w.calls dev)
        (record w { calls = suc w.calls }) (called-Places _ w h) free)

  -- usb_device_add returns, and the listed devices are live still, each at a place of its own,
  -- whatever libusb answers and whichever device it is called for.
  pub usb_device_add-Places :
      (w : World) → Places w → Ensures (λ r w'. Places w') (usb_device_add sys dev w)
  unfolding usb_device_add find_device
  usb_device_add-Places w h =
      Ensures-bind (find_usb (is_at (sys.bus_number dev) (sys.device_address dev)) w.usb_list)
        (add_unless sys dev (sys.bus_number dev) (sys.device_address dev))
        (Searched (is_at (sys.bus_number dev) (sys.device_address dev)) w.usb_list w) Kept w
        (find_usb-Searched _ w.usb_list w h.live)
        (λ r w' s. rw s.0 (add_unless-Kept (sys.bus_number dev) (sys.device_address dev) r w h s.1))
