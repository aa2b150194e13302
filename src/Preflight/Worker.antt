-- ===== src/Preflight/Worker.antt =====
-- preflight_worker_handle_device_add of src/preflight.c.
use usbmuxd.Prelude.{
  Bool, List, Option, [], eq_bytes, false, if◌then◌else◌, none, not, pos, some, suc, true, zero, ℕ,
  ◌&&◌, ◌∷◌,
}
use usbmuxd.Plist.{Plist, codes, string_of}
use usbmuxd.World.{
  M, Sys, call, deref, emit, free_cb, hang, load_cb, malloc, np_freed, pure, store_cb, ◌>>=◌, ◌>>◌,
}
use usbmuxd.Conf.Records.{
  config_device_record_get_host_id, config_has_device_record, config_remove_device_record,
}
use usbmuxd.Client.Notices.{client_device_add}
use usbmuxd.Device.State.{DeviceInfo}
use usbmuxd.Device.Listing.{device_set_preflight_cb_data}
use usbmuxd.Preflight.State.{CbData, IdevicePrivate, connection_usbmuxd}
use usbmuxd.Preflight.Lockdown.{Lockdown, LockdownError, invalid_host_id, ssl_error, success}
use usbmuxd.Preflight.Version.{shows_trust_dialog, strtol}
use usbmuxd.Preflight.Callback.{
  lockdownd_client_new, lockdownd_set_untrusted_host_buid, np_callback, preflight_device_remove_cb,
}

-- What happens to a worker while it sleeps: a notification, or the removal of its device.
pub data Event : Type 0 where
  notified : List ℕ → Event
  removal : Event

-- Where the worker is at `leave`: with a lockdown client, or without.
pub data Left : Type 0 where
  with_lockdown without_lockdown : Left

abbrev pub has_np : Option ℕ → Bool
has_np none = false
has_np (some np) = true

-- `cbdata.np && cbdata.is_device_connected && !cbdata.is_finished`
abbrev pub is_waiting : CbData → Bool
is_waiting c = has_np c.np && c.is_device_connected && not c.is_finished

abbrev pub new_cb_data : IdevicePrivate → Option ℕ → CbData
new_cb_data dev np = record { dev = dev; np = np; is_device_connected = true; is_finished = false }

abbrev pub new_dev : DeviceInfo → List ℕ → IdevicePrivate
new_dev info udid = record {
  udid = udid;
  mux_id = info.id;
  conn_type = connection_usbmuxd;
  conn_data = none;
  version = 0;
  device_class = 0;
}

abbrev pub free_np : Option ℕ → M (Unit {0})
free_np none = pure tt
free_np (some np) = emit (np_freed np)

module _ (sys : Sys) (lockdown : Lockdown) where
  unfoldable pub happen : ℕ → Event → M (Unit {0})
  unfolding np_callback preflight_device_remove_cb
  happen p (notified notification) = np_callback sys lockdown notification p
  happen p removal = preflight_device_remove_cb (some p)

  unfoldable pub happen_all : ℕ → List Event → M (Unit {0})
  unfolding happen
  happen_all p [] = pure tt
  happen_all p (e ∷ es) = happen p e >> happen_all p es

  -- The loop with `sleep(1)`, over so many sleeps, with the events of each. The result is whether the
  -- loop has ended by then.
  unfoldable pub wait_for_trust : ℕ → List (List Event) → M Bool
  unfolding happen_all
  wait_for_trust p [] = do c ← load_cb p; pure (not (is_waiting c))
  wait_for_trust p (es ∷ sleeps) = do
    c ← load_cb p
    let next = happen_all p es >> wait_for_trust p sleeps
    if is_waiting c then next else pure true

  module _ (info : DeviceInfo) (udid : List ℕ) (early : List Event)
      (sleeps : List (List Event)) where
    abbrev pub announced : Left → M Left
    announced left = client_device_add sys info >> pure left

    -- Behind the loop; the callback's data is on the worker's stack. A worker whose device is there
    -- and which is told nothing more sleeps for ever.
    abbrev pub stop_waiting : ℕ → Bool → M Left
    stop_waiting p false = λ w. hang
    stop_waiting p true = do
      device_set_preflight_cb_data info.id none
      c ← load_cb p
      free_np c.np
      free_cb p
      pure without_lockdown

    -- The events before the loop come once the callback is set.
    unfoldable pub observe : M Left
    unfolding device_set_preflight_cb_data client_device_add happen_all wait_for_trust
    observe = do
      n ← call
      p ← malloc
      store_cb p (new_cb_data (new_dev info udid) (lockdown.np_client_new n))
      device_set_preflight_cb_data info.id (some p)
      client_device_add sys info
      happen_all p early
      done ← wait_for_trust p sleeps
      stop_waiting p done

    abbrev pub after_start_service : LockdownError → M Left
    after_start_service success = observe
    after_start_service _ = announced with_lockdown

    abbrev pub start_proxy : M Left
    start_proxy = do
      n ← call
      after_start_service
          (lockdown.start_service n (codes "com.apple.mobile.insecure_notification_proxy"))

    abbrev pub after_dialog : LockdownError → M Left
    after_dialog success = announced with_lockdown
    after_dialog _ = start_proxy

    -- The device asks its user; a device that is paired already is not paired again.
    unfoldable pub trust_dialog : Bool → M Left
    unfolding lockdownd_set_untrusted_host_buid client_device_add observe
    trust_dialog is_device_paired = do
      lockdownd_set_untrusted_host_buid sys lockdown
      if is_device_paired then start_proxy else (do lerr ← lockdown.pair; after_dialog lerr)

    abbrev pub after_validate : LockdownError → M Left
    after_validate success = announced with_lockdown
    after_validate _ = pure with_lockdown

    abbrev pub after_session : LockdownError → M Left
    after_session success = do n ← call; after_validate (lockdown.validate_pair n)
    after_session _ = pure with_lockdown

    abbrev pub session : M LockdownError
    session = do
      host_id ← config_device_record_get_host_id sys udid
      n ← call
      pure (lockdown.start_session n host_id)

    abbrev pub after_pair : LockdownError → M Left
    after_pair success = do lerr ← session; after_session lerr
    after_pair _ = announced with_lockdown

    -- iOS 6 and earlier.
    unfoldable pub pair_old : M Left
    unfolding config_device_record_get_host_id client_device_add
    pair_old = do lerr ← lockdown.pair; after_pair lerr

    abbrev pub by_class : Bool → List ℕ → Option (List ℕ) → M Left
    by_class is_device_paired version_str none = pure with_lockdown
    by_class is_device_paired version_str (some deviceclass_str) =
        if shows_trust_dialog deviceclass_str (strtol version_str)
        then trust_dialog is_device_paired
        else pair_old

    abbrev pub class_of : LockdownError × Option Plist → Option (List ℕ)
    class_of (success, value) = string_of value
    class_of _ = none

    abbrev pub with_version : Bool → Option (List ℕ) → M Left
    with_version is_device_paired none = pure with_lockdown
    with_version is_device_paired (some version_str) = do
      n ← call
      by_class is_device_paired version_str (class_of (lockdown.get_value n (codes "DeviceClass")))

    -- An old version is assumed where lockdownd does not tell it.
    abbrev pub version_of : LockdownError × Option Plist → Option (List ℕ)
    version_of (success, value) = string_of value
    version_of _ = some (codes "1.0")

    unfoldable pub ask_device : Bool → M Left
    unfolding shows_trust_dialog strtol trust_dialog pair_old
    ask_device is_device_paired = do
      n ← call
      with_version is_device_paired (version_of (lockdown.get_value n (codes "ProductVersion")))

    -- A session with the stored pairing record, where there is one; a negative answer counts as one.
    unfoldable pub try_session : M LockdownError
    unfolding config_has_device_record config_device_record_get_host_id
    try_session = do
      has ← config_has_device_record sys (some udid)
      elim has [ pos zero ↦ pure invalid_host_id | _ ↦ session ]

    -- The `switch`, with the way back to `retry` as an argument.
    unfoldable pub after_try : M Left → LockdownError → M Left
    unfolding client_device_add config_remove_device_record ask_device
    after_try retry success = announced with_lockdown
    after_try retry invalid_host_id = ask_device false
    after_try retry ssl_error = do
      removed ← config_remove_device_record sys udid
      elim removed [ pos zero ↦ retry | _ ↦ ask_device false ]
    after_try retry _ = ask_device true

    abbrev pub by_type : M Left → Option (List ℕ) → M Left
    by_type retry none = pure with_lockdown
    by_type retry (some type) =
        if eq_bytes type (codes "com.apple.mobile.lockdown")
        then (do lerr ← try_session; after_try retry lerr)
        else announced with_lockdown

    abbrev pub with_client : M Left → LockdownError → M Left
    with_client retry success = do n ← call; by_type retry (lockdown.query_type n)
    with_client retry _ = pure without_lockdown

    -- From the label `retry` on, which is reached so often at most.
    unfoldable pub handle_from : ℕ → M Left
    unfolding eq_bytes client_device_add try_session after_try
    handle_from zero = λ w. hang
    handle_from (suc fuel) = do
      lerr ← lockdownd_client_new sys lockdown
      with_client (handle_from fuel) lerr

  -- `strdup` of a serial number that is NULL is a fault. A second time is enough: the record that
  -- sends the worker back is gone then.
  unfoldable pub preflight_worker_handle_device_add :
      DeviceInfo → List Event → List (List Event) → M Left
  unfolding handle_from
  preflight_worker_handle_device_add info early sleeps = do
    udid ← deref info.serial
    handle_from info udid early sleeps 2
