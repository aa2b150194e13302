-- ===== src/Preflight/Steps.antt =====
-- The branches of preflight_worker_handle_device_add in src/preflight.c come to an end, but for the
-- way back to `retry`.
use usbmuxd.Conf.Records.{config_device_record_get_host_id}
use usbmuxd.Preflight.Version.{shows_trust_dialog, strtol}
use usbmuxd.Prelude.{
  Bool, Bool-cases, List, Option, false, inl, inr, none, refl, some, suc, true, ℕ, ◌≡◌,
}
use usbmuxd.World.{
  Ends, Ends-bind, Ensures→Ends, Halts, Halts-bind, Sys, World, call, load_cb, pure, ◌>>=◌,
}
use usbmuxd.Conf.Rooted.{Rooted, get_host_id-Rooted, same-Rooted}
use usbmuxd.Client.Notices.{client_device_add}
use usbmuxd.Client.Notices.Halting.{client_device_add-Halts, device_set_preflight_cb_data-Halts}
use usbmuxd.Device.State.{DeviceInfo}
use usbmuxd.Device.Listing.{device_set_preflight_cb_data}
use usbmuxd.Preflight.Lockdown.{
  Lockdown, LockdownError, invalid_host_id, other_error, password_protected, ssl_error, success,
}
use usbmuxd.Preflight.Callback.{lockdownd_set_untrusted_host_buid}
use usbmuxd.Preflight.Worker.{
  Event, Left, after_dialog, after_pair, after_session, after_start_service, after_validate,
  announced, ask_device, by_class, free_np, happen_all, observe, pair_old, session, start_proxy,
  stop_waiting, trust_dialog, wait_for_trust, with_lockdown, with_version,
}
use usbmuxd.Preflight.Halting.{call-Halts, happen_all-Halts, load_cb-Halts, other, untrusted-Halts}

module _ (sys : Sys) (lockdown : Lockdown) (dir : List ℕ) (pairs : Halts (Rooted dir) lockdown.pair)
    (info : DeviceInfo) (udid : List ℕ) (early : List Event) (sleeps : List (List Event))
    (waits : (p : ℕ) (w : World)
      → Rooted dir w
      → Ends
          (λ over w'. (over ≡ true) × Rooted dir w')
          (wait_for_trust sys lockdown p sleeps w)) where
  abbrev R : World → Type 0
  R = Rooted dir

  pub announced-Halts : (left : Left) → Halts R (announced sys lockdown info udid early sleeps left)
  announced-Halts left =
      Halts-bind R (client_device_add sys info) (λ _. pure left)
        (client_device_add-Halts sys R (other sys lockdown dir pairs) info) (λ u w i. i)

  set_cb-Halts : (cb : Option ℕ) → Halts R (device_set_preflight_cb_data info.id cb)
  set_cb-Halts cb =
      device_set_preflight_cb_data-Halts sys R (other sys lockdown dir pairs) info.id cb

  free_np-Halts : (np : Option ℕ) → Halts R (free_np np)
  free_np-Halts none w i = i
  free_np-Halts (some np) w i = same-Rooted w _ refl refl i

  stop_waiting-Halts : (p : ℕ) → Halts R (stop_waiting sys lockdown info udid early sleeps p true)
  stop_waiting-Halts p w i =
      Halts-bind R (device_set_preflight_cb_data info.id none) _ (set_cb-Halts none)
        (λ u. Halts-bind R (load_cb p) _ (load_cb-Halts sys lockdown dir pairs p) (λ c.
          Halts-bind R (free_np c.np) _ (free_np-Halts c.np)
            (λ v w' i'. same-Rooted w' _ refl refl i')))
        w i

  waited-Halts :
      (p : ℕ)
      → Halts R (
          wait_for_trust sys lockdown p sleeps
          >>= stop_waiting sys lockdown info udid early sleeps p)
  waited-Halts p w i =
      Ends-bind (wait_for_trust sys lockdown p sleeps)
        (stop_waiting sys lockdown info udid early sleeps p) (λ over w'. (over ≡ true) × R w')
        (λ left w'. R w') w (waits p w i) (λ over w' h. rw (h.0) (stop_waiting-Halts p w' h.1))

  observe-Halts : Halts R (observe sys lockdown info udid early sleeps)
  unfolding observe
  observe-Halts w i =
      Halts-bind R (device_set_preflight_cb_data info.id (some w.fresh)) _
        (set_cb-Halts (some w.fresh))
        (λ u.
          Halts-bind R (client_device_add sys info) _
            (client_device_add-Halts sys R (other sys lockdown dir pairs) info)
            (λ v.
              Halts-bind R (happen_all sys lockdown w.fresh early) _
                (happen_all-Halts sys lockdown dir pairs w.fresh early)
                (λ x. waited-Halts w.fresh)))
        _ (same-Rooted w _ refl refl i)

  after_start_service-Halts :
      (e : LockdownError) → Halts R (after_start_service sys lockdown info udid early sleeps e)
  after_start_service-Halts success w i = observe-Halts w i
  after_start_service-Halts invalid_host_id w i = announced-Halts with_lockdown w i
  after_start_service-Halts ssl_error w i = announced-Halts with_lockdown w i
  after_start_service-Halts password_protected w i = announced-Halts with_lockdown w i
  after_start_service-Halts other_error w i = announced-Halts with_lockdown w i

  start_proxy-Halts : Halts R (start_proxy sys lockdown info udid early sleeps)
  start_proxy-Halts w i =
      after_start_service-Halts _ (record w { calls = suc w.calls }) (same-Rooted w _ refl refl i)

  after_dialog-Halts :
      (e : LockdownError) → Halts R (after_dialog sys lockdown info udid early sleeps e)
  after_dialog-Halts success w i = announced-Halts with_lockdown w i
  after_dialog-Halts invalid_host_id w i = start_proxy-Halts w i
  after_dialog-Halts ssl_error w i = start_proxy-Halts w i
  after_dialog-Halts password_protected w i = start_proxy-Halts w i
  after_dialog-Halts other_error w i = start_proxy-Halts w i

  trust_dialog-Halts : (b : Bool) → Halts R (trust_dialog sys lockdown info udid early sleeps b)
  unfolding trust_dialog
  trust_dialog-Halts true =
      Halts-bind R (lockdownd_set_untrusted_host_buid sys lockdown) _
        (untrusted-Halts sys lockdown dir pairs) (λ u. start_proxy-Halts)
  trust_dialog-Halts false =
      Halts-bind R (lockdownd_set_untrusted_host_buid sys lockdown) _
        (untrusted-Halts sys lockdown dir pairs)
        (λ u. Halts-bind R lockdown.pair _ pairs after_dialog-Halts)

  after_validate-Halts :
      (e : LockdownError) → Halts R (after_validate sys lockdown info udid early sleeps e)
  after_validate-Halts success w i = announced-Halts with_lockdown w i
  after_validate-Halts invalid_host_id w i = i
  after_validate-Halts ssl_error w i = i
  after_validate-Halts password_protected w i = i
  after_validate-Halts other_error w i = i

  after_session-Halts :
      (e : LockdownError) → Halts R (after_session sys lockdown info udid early sleeps e)
  after_session-Halts success w i =
      Halts-bind R call _ (call-Halts sys lockdown dir pairs)
        (λ n. after_validate-Halts (lockdown.validate_pair n)) w i
  after_session-Halts invalid_host_id w i = i
  after_session-Halts ssl_error w i = i
  after_session-Halts password_protected w i = i
  after_session-Halts other_error w i = i

  pub session-Halts : Halts R (session sys lockdown info udid early sleeps)
  session-Halts =
      Halts-bind R (config_device_record_get_host_id sys udid) _
        (λ w i.
          Ensures→Ends (λ s w'. R w') (λ s w'. R w') (config_device_record_get_host_id sys udid w)
            (get_host_id-Rooted sys dir udid w i) (λ s w' i'. i'))
        (λ host_id.
          Halts-bind R call (λ n. pure (lockdown.start_session n host_id))
            (call-Halts sys lockdown dir pairs) (λ n w i. i))

  after_pair-Halts :
      (e : LockdownError) → Halts R (after_pair sys lockdown info udid early sleeps e)
  after_pair-Halts success w i =
      Halts-bind R (session sys lockdown info udid early sleeps) _ session-Halts after_session-Halts
        w i
  after_pair-Halts invalid_host_id w i = announced-Halts with_lockdown w i
  after_pair-Halts ssl_error w i = announced-Halts with_lockdown w i
  after_pair-Halts password_protected w i = announced-Halts with_lockdown w i
  after_pair-Halts other_error w i = announced-Halts with_lockdown w i

  by_class-Halts :
      (b : Bool) (version_str : List ℕ) (deviceclass_str : Option (List ℕ))
      → Halts R (by_class sys lockdown info udid early sleeps b version_str deviceclass_str)
  unfolding pair_old
  by_class-Halts b version_str none w i = i
  by_class-Halts b version_str (some deviceclass_str) w i =
      elim (Bool-cases (shows_trust_dialog deviceclass_str (strtol version_str))) [
        | inl e ↦ rw e (trust_dialog-Halts b w i)
        | inr e ↦ rw e (Halts-bind R lockdown.pair _ pairs after_pair-Halts w i)
      ]

  with_version-Halts :
      (b : Bool) (version_str : Option (List ℕ))
      → Halts R (with_version sys lockdown info udid early sleeps b version_str)
  with_version-Halts b none w i = i
  with_version-Halts b (some version_str) w i =
      by_class-Halts b version_str _ (record w { calls = suc w.calls })
        (same-Rooted w _ refl refl i)

  pub ask_device-Halts : (b : Bool) → Halts R (ask_device sys lockdown info udid early sleeps b)
  unfolding ask_device
  ask_device-Halts b w i =
      with_version-Halts b _ (record w { calls = suc w.calls }) (same-Rooted w _ refl refl i)
