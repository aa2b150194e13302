-- ===== src/World/Outside.antt =====
-- What the sources call and do not define, as an interface: the system calls, libusb, libplist and
-- the collections of libimobiledevice-glue. The answer of a call that the program cannot predict
-- depends on its number in the sequence of all calls. The laws are what their manuals say.
use usbmuxd.Prelude.{
  Bool, List, Option, [], if◌then◌else◌, length, some, suc, ℕ, ℤ, ◌+◌, ◌-◌, ◌==◌, ◌∷◌, ◌≡◌, ◌≤◌,
  ◌⊎◌,
}
use usbmuxd.Plist.{Plist}
use usbmuxd.Usb.State.{Configuration, Descriptor, Speed, Timeval}

-- How often a pointer stands in a collection.
abbrev pub count : ℕ → List ℕ → ℕ
count x [] = 0
count x (y ∷ ys) = if y == x then suc (count x ys) else count x ys

-- What `send` on a non-blocking socket returns.
pub data Sent : Type 0 where
  sent : ℕ → Sent
  would_block failed : Sent

pub record Sys : Type 0 where
  -- `libusb_submit_transfer`: 0, or a negative error.
  pub submit : ℕ → ℤ
  -- `send` of so many bytes.
  pub send : ℕ → ℕ → Sent
  -- `recv` of at most so many bytes: `none` is an error, no bytes the end of the stream.
  pub recv : ℕ → ℕ → Option (List ℕ)
  -- The milliseconds that pass before a reading of the clock.
  pub elapsed : ℕ → ℕ
  -- Whether `realloc` and `plist_to_xml` succeed.
  pub realloc : ℕ → Bool
  pub to_xml : Plist → Option (List ℕ)
  -- `plist_from_xml`: `none` where the text is no property list.
  pub from_xml : List ℕ → Option Plist
  -- `plist_from_memory`, which takes the binary format too; libplist reads a file by it, and writes
  -- one by `plist_to_xml`.
  pub from_memory : List ℕ → Option Plist
  -- What `buffer_read_from_filename` hands out for the contents of a file: NULL is `none`.
  pub buffer_of : List ℕ → Option (List ℕ)
  -- The error number of a call on the file system that fails for another reason than its path:
  -- permissions, a full disk, a directory that is not empty.
  pub refused : ℕ → Option ℕ
  -- `time(NULL)`; the n-th `rand()` after `srand` with a seed.
  pub time : ℕ → ℕ
  pub rand : ℕ → ℕ → ℕ
  -- libusb, on a device of its list: its place, its descriptor, a handle, its configurations by
  -- their number, the largest packet of an endpoint, the speed.
  pub bus_number : ℕ → ℕ
  pub device_address : ℕ → ℕ
  pub device_descriptor : ℕ → ℕ → Option Descriptor
  pub open_device : ℕ → ℕ → Option ℕ
  pub config_descriptor : ℕ → ℕ → ℕ → Option Configuration
  pub max_packet : ℕ → ℕ → ℤ
  pub device_speed : ℕ → Speed
  -- The configuration in use, `none` on an error; the results of a change of it, of a question for
  -- a kernel driver, and of a claim.
  pub get_configuration : ℕ → Option ℕ
  pub set_configuration : ℕ → ℤ
  pub kernel_driver_active : ℕ → ℤ
  pub claim_interface : ℕ → ℤ
  pub alloc_transfer : ℕ → Bool
  -- The devices that are plugged in, or a negative error.
  pub get_device_list : ℕ → List ℕ ⊎ ℕ
  -- `libusb_get_next_timeout`: the time, or a result that is not positive.
  pub next_timeout : ℕ → Option Timeval
  -- `libusb_get_pollfds`: descriptors and events, `none` on an error.
  pub pollfds : ℕ → Option (List (ℕ × ℕ))
  -- `atoi(getenv("USBMUXD_DEFAULT_DEVICE_MODE"))`, where the variable is set.
  pub device_mode : Option ℤ
  -- Whether `thread_new` succeeds.
  pub thread : ℕ → Bool
  -- What stands in a receive buffer behind the bytes that were received.
  pub stale : ℕ → ℕ
  -- `collection_add` and `collection_remove`, on the pointers in the order of their slots.
  pub collection_add : List ℕ → ℕ → List ℕ
  pub collection_remove : List ℕ → ℕ → List ℕ

-- The documented behaviour. A collection holds the pointers that were added and not removed.
pub record Documented (sys : Sys) : Type 0 where
  pub send_le : (call len n : ℕ) → sys.send call len ≡ sent n → n ≤ len
  pub recv_le : (call len : ℕ) (got : List ℕ) → sys.recv call len ≡ some got → length got ≤ len
  pub count-add :
      (xs : List ℕ) (x y : ℕ)
      → count y (sys.collection_add xs x) ≡ (if x == y then 1 else 0) + count y xs
  pub count-remove :
      (xs : List ℕ) (x y : ℕ)
      → count y (sys.collection_remove xs x) ≡ count y xs - (if x == y then 1 else 0)

-- libplist reads back what it printed, and what it prints is not empty; a buffer holds the whole of
-- a file that is not empty.
pub record PlistFiles (sys : Sys) : Type 0 where
  pub from_memory-to_xml :
      (p : Plist) (b : List ℕ) → sys.to_xml p ≡ some b → sys.from_memory b ≡ some p
  pub buffer_of-to_xml : (p : Plist) (b : List ℕ) → sys.to_xml p ≡ some b → sys.buffer_of b ≡ some b
