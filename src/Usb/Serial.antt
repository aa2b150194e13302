-- ===== src/Usb/Serial.antt =====
-- The serial number of a USB device in src/usb.c: get_serial_callback with the decoding of the
-- string descriptor, and get_langid_callback.
pub mod Decoding
use usbmuxd.Prelude.{
  List, [], drop, get_or, if◌then◌else◌, is_neg, leb, length, ltb, negsuc, not, pos, suc, take,
  zero, ℕ, ℤ, ◌*◌, ◌++◌, ◌+◌, ◌==◌, ◌||◌, ◌∷◌,
}
use usbmuxd.World.{M, Sys, call, emit, load_usb, pure, request, store_usb, ◌>>=◌, ◌>>◌}
use usbmuxd.Usb.Callbacks.{Status, completed, ended, start_rx_loop}
use usbmuxd.Usb.Disconnect.{usb_disconnect}
use usbmuxd.Device.Lifecycle.{device_add, device_remove}

-- `sizeof(usbdev->serial)-1`, and NUM_RX_LOOPS.
abbrev pub serial_size : ℕ
serial_size = 255

abbrev pub num_rx_loops : ℕ
num_rx_loops = 3

-- The loop, with room for `left` more characters, over the descriptor's bytes from `si` on: '?' for
-- a code unit that is no ASCII, and an end at NUL.
unfoldable pub decode_from : (ℕ → ℕ) → ℕ → ℕ → List ℕ
decode_from bytes zero si = []
decode_from bytes (suc left) si =
    let more = decode_from bytes left (si + 2) in
    if ltb si (bytes 0)
    then (if leb 128 (bytes si) || not (bytes (si + 1) == 0)
        then 63 ∷ more
        else if bytes si == 0
        then []
        else bytes si ∷ more)
    else []

unfoldable pub decode_serial : (ℕ → ℕ) → List ℕ
unfolding decode_from
decode_serial bytes = decode_from bytes serial_size 2

-- A serial of 24 characters is a new style UDID: '-' behind the first eight.
unfoldable pub hyphenate : List ℕ → List ℕ
hyphenate s = if length s == 24 then take 8 s ++ (45 ∷ take 16 (drop 8 s)) else s

abbrev data_at : Sys → List ℕ → ℕ → ℕ
data_at sys bytes i = get_or bytes i (sys.stale i)

module _ (sys : Sys) (preflight : ℕ → M (Unit {0})) (events : M ℤ) (rounds : ℕ) where
  -- The number of loops that were not started.
  unfoldable pub start_rx_loops : ℕ → ℕ → M ℕ
  unfolding start_rx_loop
  start_rx_loops zero p = pure 0
  start_rx_loops (suc n) p = do
    res ← start_rx_loop sys p
    if is_neg res then pure (suc n) else start_rx_loops n p

  unfoldable pub finish_setup : ℕ → ℤ → M (Unit {0})
  unfolding usb_disconnect start_rx_loops device_remove
  finish_setup p (negsuc n) = usb_disconnect sys preflight events rounds p
  finish_setup p (pos n) = do
    rx_loops ← start_rx_loops num_rx_loops p
    if rx_loops == num_rx_loops
        then (do device_remove sys preflight p; usb_disconnect sys preflight events rounds p)
        else pure tt

  unfoldable pub get_serial_callback : ℕ → Status → M (Unit {0})
  unfolding decode_serial hyphenate device_add finish_setup
  get_serial_callback p ended = pure tt
  get_serial_callback p (completed bytes) = do
    d ← load_usb p
    store_usb p (record d { serial = hyphenate (decode_serial (data_at sys bytes)) })
    res ← device_add sys p
    finish_setup p res

  -- The same transfer asks for the serial number, whose callback is the one above.
  unfoldable pub get_langid_callback : ℕ → Status → M (Unit {0})
  get_langid_callback p ended = pure tt
  get_langid_callback p (completed bytes) = do
    d ← load_usb p
    n ← call
    emit (
        request p (d.devdesc.serial_index) (data_at sys bytes 2 + data_at sys bytes 3 * 256)
          (sys.submit n))
