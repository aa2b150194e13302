-- ===== src/Tests/Preflight.antt =====
-- The theorems on src/preflight.c at a telephone whose stored pairing record is not valid.
use usbmuxd.Prelude.{
  List, [], eq_bytes, false, if◌then◌else◌, length, none, refl, some, true, ℕ, ◌==◌, ◌∷◌, ◌≡◌, ◌≢◌,
}
use usbmuxd.Plist.{codes, string}
use usbmuxd.World.{Ends, Ensures, World, file, pure, put}
use usbmuxd.Conf.Rooted.{Rooted, same-Rooted}
use usbmuxd.Device.State.{DeviceInfo}
use usbmuxd.Conf.Path.{entry_path}
use usbmuxd.Conf.Abstract.{at_name, change-Refines}
use usbmuxd.Preflight.State.{CbData}
use usbmuxd.Preflight.Lockdown.{Lockdown, other_error, ssl_error, success}
use usbmuxd.Preflight.Worker.{Event, notified, preflight_worker_handle_device_add, wait_for_trust}
use usbmuxd.Preflight.Callback.{request_pair}
use usbmuxd.Preflight.Ending.{preflight_worker_handle_device_add-Ends}
use usbmuxd.Preflight.Waiting.{wait_for_trust-over}
use usbmuxd.Tests.Fixture.{one_at}
use usbmuxd.Tests.Configuration.{conf_path, disk, disk-Refines, files, on_disk}

abbrev telephone : Lockdown
telephone = record {
  client_new = λ n. success;
  query_type = λ n. some (codes "com.apple.mobile.lockdown");
  start_session = λ n host_id. ssl_error;
  get_value =
      λ n key. (success, some (string (if length key == 11 then codes "iPhone" else codes "12.4")));
  pair = pure other_error;
  validate_pair = λ n. success;
  start_service = λ n name. success;
  np_client_new = λ n. some 8;
}

abbrev attached : DeviceInfo
attached = record {
  id = 1;
  serial = some (codes "AB-1");
  location = 5;
  pid = 4776;
  speed = 480000000;
}

-- A second without events, then the user trusts the computer.
abbrev nights : List (List Event)
nights = [] ∷ (notified request_pair ∷ []) ∷ []

-- A disk with a pairing record for the device.
abbrev paired_disk : World
paired_disk = record disk {
  disk =
      put disk.disk (entry_path conf_path (codes "AB-1")) (some (file (6 ∷ codes "HostID12345")));
}

no_errno : (n : ℕ) → files.refused n ≢ some 0
no_errno n e = cc

preflight_worker_handle_device_add-Ends_example :
    Ends
      (λ left w'. Rooted conf_path w')
      (preflight_worker_handle_device_add files telephone attached [] nights paired_disk)
unfolding eq_bytes
preflight_worker_handle_device_add-Ends_example =
    preflight_worker_handle_device_add-Ends files telephone conf_path attached [] nights paired_disk
      (λ w i. (i, λ p. refl)) no_errno refl
      (
        at_name on_disk (codes "AB-1") (some (6 ∷ codes "HostID12345")),
        change-Refines conf_path on_disk disk (codes "AB-1") (some (file (6 ∷ codes "HostID12345")))
            disk-Refines,
      )

abbrev shared : CbData
shared = record {
  dev = record {
    udid = codes "AB-1";
    mux_id = 1;
    conn_type = 1;
    conn_data = none;
    version = 0;
    device_class = 0;
  };
  np = some 8;
  is_device_connected = true;
  is_finished = false;
}

abbrev asking : World
asking = record disk { cb_data = one_at 100 shared }

wait_for_trust-over_example :
    Ensures (λ over w'. over ≡ true) (wait_for_trust files telephone 100 nights asking)
unfolding eq_bytes
wait_for_trust-over_example =
    wait_for_trust-over files telephone conf_path 100 (λ c w h. h) nights shared asking
      (same-Rooted disk asking refl refl (on_disk, disk-Refines), refl)
