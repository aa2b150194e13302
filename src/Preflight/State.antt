-- ===== src/Preflight/State.antt =====
-- The state of src/preflight.c: `struct idevice_private` and `struct cb_data`.
use usbmuxd.Prelude.{Bool, List, Option, ℕ}

-- `CONNECTION_USBMUXD`
abbrev pub connection_usbmuxd : ℕ
connection_usbmuxd = 1

pub record IdevicePrivate : Type 0 where
  pub udid : List ℕ
  pub mux_id : ℕ
  pub conn_type : ℕ
  pub conn_data : Option ℕ
  pub version : ℕ
  pub device_class : ℕ

-- What the worker shares with the callback of its notification client and with device_remove.
pub record CbData : Type 0 where
  pub dev : IdevicePrivate
  pub np : Option ℕ
  pub is_device_connected : Bool
  pub is_finished : Bool
