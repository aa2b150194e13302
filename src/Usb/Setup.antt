-- ===== src/Usb/Setup.antt =====
-- A new USB device in src/usb.c: find_device, submit_vendor_specific, device_complete_initialization
-- and usb_device_add. A handle is `some`; the contexts of the
-- requests are passed on by value.
pub mod Search
pub mod Apart
pub mod Places
use usbmuxd.Prelude.{
  Bool, List, Option, [], false, if◌then◌else◌, is_neg, leb, length, negsuc, none, not, pos, some,
  suc, true, zero, ℕ, ℤ, ◌&&◌, ◌==◌, ◌||◌, ◌∷◌,
}
use usbmuxd.World.{M, Sys, call, emit, load_usb, malloc, pure, request, ret, store_usb, ◌>>=◌, ◌>>◌}
use usbmuxd.Usb.State.{
  Descriptor, ModeContext, Speed, UsbDevice, speed_full, speed_high, speed_low, speed_super,
  speed_super_plus, speed_unknown,
}
use usbmuxd.Usb.Configure.{set_valid_configuration}

-- Whether a device stands at that place of the bus.
abbrev pub is_at : ℕ → ℕ → UsbDevice → Bool
is_at bus address d = d.bus == bus && d.address == address

-- The first device of the list for which the test holds.
unfoldable pub find_usb : (UsbDevice → Bool) → List ℕ → M (Option ℕ)
find_usb p [] = pure none
find_usb p (q ∷ qs) = do
  d ← load_usb q
  let more = find_usb p qs
  if p d then pure (some q) else more

unfoldable pub find_device : ℕ → ℕ → M (Option ℕ)
unfolding find_usb
find_device bus address w = find_usb (is_at bus address) w.usb_list w

-- VID_APPLE and the ranges of products.
abbrev pub vid_apple : ℕ
vid_apple = 1452

abbrev pub within : ℕ → ℕ → ℕ → Bool
within lo hi x = leb lo x && leb x hi

unfoldable pub is_supported : Descriptor → Bool
is_supported d =
    d.vendor == vid_apple
    && (d.product == 34304 || (within 6401 6405 d.product || within 4752 4783 d.product))

-- `usbdev->speed`, in bits per second.
unfoldable pub speed_of : Speed → ℕ
speed_of speed_low = 1500000
speed_of speed_full = 12000000
speed_of speed_super = 5000000000
speed_of speed_super_plus = 10000000000
speed_of speed_high = 480000000
speed_of speed_unknown = 480000000

-- A result that is not positive stands for 64.
abbrev packet_size : ℤ → ℕ
packet_size (pos zero) = 64
packet_size (pos (suc n)) = suc n
packet_size (negsuc n) = 64

abbrev pub set_alive : ℕ → Bool → M (Unit {0})
set_alive p b = do d ← load_usb p; store_usb p (record d { alive = b })

-- APPLE_VEND_SPECIFIC_GET_MODE and APPLE_VEND_SPECIFIC_SET_MODE.
abbrev pub request_get_mode : ℕ
request_get_mode = 69

abbrev pub request_set_mode : ℕ
request_set_mode = 82

-- The object that usb_device_add fills; what it does not set is 0.
abbrev pub new_usb_device : ℕ → ℕ → ℕ → Descriptor → UsbDevice
new_usb_device handle bus address devdesc = record {
  handle = some handle;
  bus = bus;
  address = address;
  serial = [];
  alive = true;
  interface = 0;
  ep_in = 0;
  ep_out = 0;
  rx_xfers = [];
  tx_xfers = [];
  max_packet_size = 0;
  speed = 0;
  devdesc = devdesc;
}

module _ (sys : Sys) where
  unfoldable pub submit_vendor_specific : ModeContext → M ℤ
  submit_vendor_specific context = do n ← call; pure (sys.submit n)

  -- The fields of a device that is set up, by the context.
  abbrev set_up : ModeContext → ℕ → UsbDevice → UsbDevice
  set_up context handle d = record d {
    serial = [];
    bus = context.bus;
    address = context.address;
    handle = some handle;
    alive = true;
    max_packet_size = packet_size (sys.max_packet context.dev d.ep_out);
    speed = speed_of (sys.device_speed context.dev);
  }

  -- The request for the languages of the device.
  unfoldable pub request_languages : ℕ → M (Unit {0})
  request_languages p = do
    n ← call
    emit (request p 0 0 (sys.submit n))
    if is_neg (sys.submit n) then set_alive p false else pure tt

  -- Claim the interface, allocate the transfer, and ask.
  unfoldable pub claim_and_ask : ModeContext → ℕ → ℕ → ℤ → M (Unit {0})
  unfolding request_languages speed_of
  claim_and_ask context handle p (pos zero) = do
    n ← call
    if not (sys.alloc_transfer n)
        then set_alive p false
        else (do d ← load_usb p; store_usb p (set_up context handle d); request_languages p)
  claim_and_ask context handle p _ = set_alive p false

  unfoldable pub complete : ModeContext → ℕ → Option ℕ → M (Unit {0})
  unfolding set_valid_configuration claim_and_ask
  complete context handle none = pure tt
  complete context handle (some p) = do
    res ← set_valid_configuration sys context.dev p
    elim res [
      | pos zero ↦ do n ← call; claim_and_ask context handle p (sys.claim_interface n)
      | _ ↦ set_alive p false
    ]

  unfoldable pub device_complete_initialization : ModeContext → ℕ → M (Unit {0})
  unfolding find_device complete
  device_complete_initialization context handle = do
    found ← find_device context.bus context.address
    complete context handle found

  -- The result of the request for the mode: on a failure the device is left to be reaped.
  abbrev pub asked : ℕ → ℤ → M ℤ
  asked p (pos zero) = pure (pos 0)
  asked p _ = set_alive p false >> pure (negsuc 0)

  -- A device that was opened: it is listed, and asked for its mode.
  abbrev pub list_new : ℕ → ℕ → ℕ → Descriptor → Option ℕ → M ℤ
  list_new dev bus address devdesc none = pure (negsuc 0)
  list_new dev bus address devdesc (some handle) = do
    p ← malloc
    store_usb p (new_usb_device handle bus address devdesc)
    λ w. ret tt (record w { usb_list = sys.collection_add w.usb_list p })
    res ← submit_vendor_specific (record {
      dev = dev;
      bus = bus;
      address = address;
      request = request_get_mode;
      value = 0;
      index = 0;
      length = 4;
      timeout = 1000;
    })
    asked p res

  unfoldable pub open_new : ℕ → ℕ → ℕ → Descriptor → M ℤ
  unfolding submit_vendor_specific
  open_new dev bus address devdesc = do
    n ← call
    list_new dev bus address devdesc (sys.open_device n dev)

  abbrev pub checked : ℕ → ℕ → ℕ → Option Descriptor → M ℤ
  checked dev bus address none = pure (negsuc 0)
  checked dev bus address (some devdesc) =
      if is_supported devdesc then open_new dev bus address devdesc else pure (negsuc 0)

  unfoldable pub add_unless : ℕ → ℕ → ℕ → Option ℕ → M ℤ
  unfolding is_supported open_new
  add_unless dev bus address (some p) = set_alive p true >> pure (pos 0)
  add_unless dev bus address none = do
    n ← call
    checked dev bus address (sys.device_descriptor n dev)

  unfoldable pub usb_device_add : ℕ → M ℤ
  unfolding find_device add_unless
  usb_device_add dev = do
    let bus = sys.bus_number dev
    let address = sys.device_address dev
    found ← find_device bus address
    add_unless dev bus address found
