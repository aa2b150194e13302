-- ===== src/World/Store.antt =====
-- The store: the live objects by address, the two collections, the counters, and what was sent.
-- `malloc` hands out addresses that were not used before, and succeeds. Reading or writing an
-- object that is not live, or through NULL, or past a buffer, is a fault.
use usbmuxd.Prelude.{
  Bool, List, Option, eq_bytes, if◌then◌else◌, none, some, suc, ℕ, ℤ, ◌+◌, ◌==◌, ◌∷◌,
}
use usbmuxd.Device.State.{DeviceInfo, MuxConnection, MuxDevice}
use usbmuxd.Client.State.{MuxClient}
use usbmuxd.Usb.State.{Timeval, UsbDevice}
use usbmuxd.Preflight.State.{CbData}

-- What leaves the process: a packet to a USB device, bytes to a socket, the end of a socket, the
-- start of a preflight worker thread, a request for the string descriptor of a USB device in a
-- language, with its result; a log line that prints text from the device, with the log level and
-- the precision of its `%.*s`; the BUID that lockdownd is told as the UntrustedHostBUID; and the
-- end of a notification client.
pub data Out : Type 0 where
  packet : ℕ → List ℕ → Out
  reply : ℕ → List ℕ → Out
  closed : ℕ → Out
  worker : DeviceInfo → Out
  request : ℕ → ℕ → ℕ → ℤ → Out
  logged : ℕ → ℤ → Out
  untrusted_host_buid : List ℕ → Out
  np_freed : ℕ → Out
  cancelled handle_closed : ℕ → Out
  interface_released : ℕ → ℕ → Out

-- What stands at a path of the file system.
pub data Node : Type 0 where
  directory : Node
  file : List ℕ → Node

pub record World : Type 0 where
  pub calls : ℕ
  pub clock : ℕ
  pub fresh : ℕ
  pub usb : ℕ → Option UsbDevice
  pub dev : ℕ → Option MuxDevice
  pub conn : ℕ → Option MuxConnection
  pub client : ℕ → Option MuxClient
  pub cb_data : ℕ → Option CbData
  pub device_list : List ℕ
  pub client_list : List ℕ
  pub next_device_id : ℕ
  pub client_number : ℕ
  pub no_preflight : Bool
  pub disk : List ℕ → Option Node
  pub config_dir : Option (List ℕ)
  pub usb_list : List ℕ
  pub devlist_failures : ℕ
  pub device_polling : Bool
  pub device_hotplug : Bool
  pub next_dev_poll_time : Timeval
  pub out : List Out

-- A run returns, touches memory that it may not, or is still in a loop when the fuel is spent.
pub data Outcome {ℓ} (A : Type ℓ) : Type ℓ where
  ret : A → World → Outcome A
  fault hang : Outcome A

abbrev pub M : Type 0 → Type 0
M A = World → Outcome A

abbrev pub pure : {A : Type 0} → A → M A
pure a w = ret a w

abbrev pub crash : {A : Type 0} → M A
crash w = fault

infixl 5 ◌>>=◌ ◌>>◌
abbrev pub ◌>>=◌ : {A B : Type 0} → M A → (A → M B) → M B
◌>>=◌ m f w = elim (m w) [ ret a w' ↦ f a w' | fault ↦ fault | hang ↦ hang ]

abbrev pub ◌>>◌ : {A B : Type 0} → M A → M B → M B
m >> k = m >>= λ _. k

-- A function to objects, changed at one address.
abbrev pub update : {A : Type 0} → (ℕ → Option A) → ℕ → Option A → ℕ → Option A
update f p v q = if p == q then v else f q

-- The file system, changed at one path.
abbrev pub put : (List ℕ → Option Node) → List ℕ → Option Node → List ℕ → Option Node
put f p v q = if eq_bytes p q then v else f q

abbrev pub deref : {A : Type 0} → Option A → M A
deref none w = fault
deref (some a) w = ret a w

abbrev pub load_usb : ℕ → M UsbDevice
load_usb p w = deref (w.usb p) w

abbrev pub store_usb : ℕ → UsbDevice → M (Unit {0})
store_usb p v w = ret tt (record w { usb = update w.usb p (some v) })

abbrev pub free_usb : ℕ → M (Unit {0})
free_usb p w = ret tt (record w { usb = update w.usb p none })

abbrev pub load_dev : ℕ → M MuxDevice
load_dev p w = deref (w.dev p) w

abbrev pub store_dev : ℕ → MuxDevice → M (Unit {0})
store_dev p v w = ret tt (record w { dev = update w.dev p (some v) })

abbrev pub free_dev : ℕ → M (Unit {0})
free_dev p w = ret tt (record w { dev = update w.dev p none })

abbrev pub load_conn : ℕ → M MuxConnection
load_conn p w = deref (w.conn p) w

abbrev pub store_conn : ℕ → MuxConnection → M (Unit {0})
store_conn p v w = ret tt (record w { conn = update w.conn p (some v) })

abbrev pub free_conn : ℕ → M (Unit {0})
free_conn p w = ret tt (record w { conn = update w.conn p none })

abbrev pub load_client : ℕ → M MuxClient
load_client p w = deref (w.client p) w

abbrev pub store_client : ℕ → MuxClient → M (Unit {0})
store_client p v w = ret tt (record w { client = update w.client p (some v) })

abbrev pub free_client : ℕ → M (Unit {0})
free_client p w = ret tt (record w { client = update w.client p none })

abbrev pub load_cb : ℕ → M CbData
load_cb p w = deref (w.cb_data p) w

abbrev pub store_cb : ℕ → CbData → M (Unit {0})
store_cb p v w = ret tt (record w { cb_data = update w.cb_data p (some v) })

abbrev pub free_cb : ℕ → M (Unit {0})
free_cb p w = ret tt (record w { cb_data = update w.cb_data p none })

abbrev pub malloc : M ℕ
malloc w = ret w.fresh (record w { fresh = suc w.fresh })

-- The number of the next call of the outside.
abbrev pub call : M ℕ
call w = ret w.calls (record w { calls = suc w.calls })

abbrev pub emit : Out → M (Unit {0})
emit o w = ret tt (record w { out = o ∷ w.out })

-- Time passes, in milliseconds; a reading of the clock.
abbrev pub pass : ℕ → M (Unit {0})
pass ms w = ret tt (record w { clock = w.clock + ms })

abbrev pub now : M ℕ
now w = ret w.clock w
