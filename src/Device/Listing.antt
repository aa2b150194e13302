-- ===== src/Device/Listing.antt =====
-- What src/device.c tells the clients of its devices.
use usbmuxd.Prelude.{
  Bool, List, Option, [], if◌then◌else◌, none, some, suc, true, ℕ, ◌&&◌, ◌||◌, ◌∷◌,
}
use usbmuxd.World.{M, load_dev, pure, store_dev, ◌>>=◌}
use usbmuxd.Device.State.{DeviceInfo, MuxDevice, is_active}
use usbmuxd.Device.Find.{get_mux_device_for_id}
use usbmuxd.Usb.Getters.{usb_get_location, usb_get_pid, usb_get_serial, usb_get_speed}

-- `(dev->state == MUXDEV_ACTIVE) && (include_hidden || dev->visible)`
abbrev pub is_listed : Bool → MuxDevice → Bool
is_listed include_hidden d = is_active d.state && (include_hidden || d.visible)

-- The `struct device_info` of a device.
unfoldable pub info_of : MuxDevice → M DeviceInfo
unfolding usb_get_serial usb_get_location usb_get_pid usb_get_speed
info_of d = do
  serial ← usb_get_serial d.usbdev
  location ← usb_get_location d.usbdev
  pid ← usb_get_pid d.usbdev
  speed ← usb_get_speed d.usbdev
  pure (record { id = d.id; serial = serial; location = location; pid = pid; speed = speed })

unfoldable pub list_from : Bool → List ℕ → M (List DeviceInfo)
unfolding info_of
list_from include_hidden [] = pure []
list_from include_hidden (p ∷ ps) = do
  d ← load_dev p
  let rest = list_from include_hidden ps
  if is_listed include_hidden d
      then (do info ← info_of d; infos ← rest; pure (info ∷ infos))
      else rest

unfoldable pub device_get_list : Bool → M (List DeviceInfo)
unfolding list_from
device_get_list include_hidden w = list_from include_hidden w.device_list w

unfoldable pub count_from : Bool → List ℕ → M ℕ
count_from include_hidden [] = pure 0
count_from include_hidden (p ∷ ps) = do
  d ← load_dev p
  n ← count_from include_hidden ps
  pure (if is_listed include_hidden d then suc n else n)

unfoldable pub device_get_count : Bool → M ℕ
unfolding count_from
device_get_count include_hidden w = count_from include_hidden w.device_list w

-- A change of the first device with that id.
unfoldable pub change_dev : ℕ → (MuxDevice → MuxDevice) → M (Unit {0})
unfolding get_mux_device_for_id
change_dev id f = do
  found ← get_mux_device_for_id id
  elim found [ none ↦ pure tt | some p ↦ do d ← load_dev p; store_dev p (f d) ]

unfoldable pub device_set_visible : ℕ → M (Unit {0})
unfolding change_dev
device_set_visible id = change_dev id (λ d. record d { visible = true })

unfoldable pub device_set_preflight_cb_data : ℕ → Option ℕ → M (Unit {0})
unfolding change_dev
device_set_preflight_cb_data id cb = change_dev id (λ d. record d { preflight_cb_data = cb })
