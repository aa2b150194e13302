-- ===== src/Preflight/Lockdown.antt =====
-- libimobiledevice as src/preflight.c uses it: lockdownd and the notification proxy of a device.
-- The answer of a call depends on its number in the sequence of all calls.
use usbmuxd.Prelude.{List, Option, ℕ}
use usbmuxd.Plist.{Plist}
use usbmuxd.World.{M}

-- `LOCKDOWN_E_SUCCESS` and the errors that the source tells apart.
pub data LockdownError : Type 0 where
  success invalid_host_id ssl_error password_protected other_error : LockdownError

pub record Lockdown : Type 0 where
  pub client_new : ℕ → LockdownError
  pub query_type : ℕ → Option (List ℕ)
  pub start_session : ℕ → Option (List ℕ) → LockdownError
  pub get_value : ℕ → List ℕ → LockdownError × Option Plist
  -- `lockdownd_pair`, which stores the pairing record through the daemon itself.
  pub pair : M LockdownError
  pub validate_pair : ℕ → LockdownError
  pub start_service : ℕ → List ℕ → LockdownError
  -- `np_client_new`: the client, NULL where it fails.
  pub np_client_new : ℕ → Option ℕ
