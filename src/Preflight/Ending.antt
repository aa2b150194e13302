-- ===== src/Preflight/Ending.antt =====
-- The way back to `retry` in preflight_worker_handle_device_add of src/preflight.c is taken once at
-- most.
use usbmuxd.Prelude.{
  Bool, Bool-cases, List, Option, arith, eq_bytes, false, inl, inr, negsuc, none, pos, refl, some,
  suc, true, zero, ℕ, ℤ, ◌≡◌, ◌≢◌, ◌⊎◌,
}
use usbmuxd.Plist.{codes}
use usbmuxd.World.{
  Ends, Ends-bind, Ensures, Ensures→Ends, Halts, Halts-bind, M, Sys, World, deref, pure, ◌>>=◌,
}
use usbmuxd.Conf.Path.Distinct.{eq_bytes_self}
use usbmuxd.Conf.Abstract.{Refines, at_name, called-Refines}
use usbmuxd.Conf.Records.{config_has_device_record, config_remove_device_record}
use usbmuxd.Conf.Records.Reading.{RemoveAnswer, config_remove_device_record-Refines}
use usbmuxd.Conf.Rooted.{Rooted, config_has_device_record-Missing, same-Rooted}
use usbmuxd.Device.State.{DeviceInfo}
use usbmuxd.Preflight.Lockdown.{
  Lockdown, LockdownError, invalid_host_id, other_error, password_protected, ssl_error, success,
}
use usbmuxd.Preflight.Waiting.{some_sleep_ends, wait_for_trust-Ends}
use usbmuxd.Preflight.Worker.{
  Event, Left, after_try, ask_device, by_type, handle_from, preflight_worker_handle_device_add,
  session, try_session, wait_for_trust, with_client, with_lockdown,
}
use usbmuxd.Preflight.Steps.{announced-Halts, ask_device-Halts, session-Halts}

module _ (sys : Sys) (lockdown : Lockdown) (dir : List ℕ) (pairs : Halts (Rooted dir) lockdown.pair)
    (errno : (n : ℕ) → sys.refused n ≢ some 0) (info : DeviceInfo) (udid : List ℕ)
    (early : List Event) (sleeps : List (List Event))
    (waits : (p : ℕ) (w : World)
      → Rooted dir w
      → Ends
          (λ over w'. (over ≡ true) × Rooted dir w')
          (wait_for_trust sys lockdown p sleeps w)) where
  abbrev R : World → Type 0
  R = Rooted dir

  -- There is no pairing record for the device.
  abbrev Gone : World → Type 0
  Gone w = (store : List ℕ → Option (List ℕ)) × Refines dir store w × (store udid ≡ none)

  abbrev Stays : Left → World → Type 0
  Stays left w = R w

  ask-Halts : (b : Bool) → Halts R (ask_device sys lockdown info udid early sleeps b)
  ask-Halts = ask_device-Halts sys lockdown dir pairs info udid early sleeps waits

  -- Without a record there is no session to try.
  try-Gone :
      (w : World)
      → Gone w
      → Ends
          (λ e w'. R w' × (e ≡ invalid_host_id))
          (try_session sys lockdown info udid early sleeps w)
  unfolding try_session
  try-Gone w (store, r, gone) =
      Ends-bind (config_has_device_record sys (some udid)) _
        (λ has w'. Refines dir store w' × (has ≡ pos 0)) _ w
        (Ensures→Ends _ _ (config_has_device_record sys (some udid) w)
          (config_has_device_record-Missing sys dir udid store w r) (λ has w' h. (h.0, h.1 gone)))
        (λ has w' h. rw h.1 ((store, h.0), refl))

  -- The device's type, given what a session comes to.
  typed :
      (P : World → Type 0) (retry : M Left)
      → ((w : World) → P w → R w)
      → ((w : World)
          → P w
          → Ends Stays (
              (try_session sys lockdown info udid early sleeps
                  >>= after_try sys lockdown info udid early sleeps retry)
                w))
      → (type : Option (List ℕ)) (w : World) → P w
      → Ends Stays (by_type sys lockdown info udid early sleeps retry type w)
  typed P retry weaker session none w i = weaker w i
  typed P retry weaker session (some type) w i =
      elim (Bool-cases (eq_bytes type (codes "com.apple.mobile.lockdown"))) [
        | inl e ↦ rw e (session w i)
        | inr e ↦ rw e (
            announced-Halts sys lockdown dir pairs info udid early sleeps waits with_lockdown w
              (weaker w i))
      ]

  attempt :
      (P : World → Type 0) (fuel : ℕ)
      → ((w : World) (n : ℕ) → P w → P (record w { calls = n }))
      → ((w : World) → P w → R w)
      → ((w : World)
          → P w
          → Ends Stays (
              (try_session sys lockdown info udid early sleeps
                  >>= after_try sys lockdown info udid early sleeps
                      (handle_from sys lockdown info udid early sleeps fuel))
                w))
      → (w : World) → P w
      → Ends Stays (handle_from sys lockdown info udid early sleeps (suc fuel) w)
  unfolding handle_from
  attempt P fuel called weaker session w i =
      by_error (lockdown.client_new w.calls) (record w { calls = suc w.calls }) (called w _ i)
    where
      by_error :
          (e : LockdownError) (w' : World)
          → P w'
          → Ends Stays (
              with_client sys lockdown info udid early sleeps
                (handle_from sys lockdown info udid early sleeps fuel)
                e
                w')
      by_error success w' i' =
          typed P _ weaker session (lockdown.query_type w'.calls)
            (record w' { calls = suc w'.calls }) (called w' _ i')
      by_error invalid_host_id w' i' = weaker w' i'
      by_error ssl_error w' i' = weaker w' i'
      by_error password_protected w' i' = weaker w' i'
      by_error other_error w' i' = weaker w' i'

  handle_from-Gone :
      (w : World) → Gone w → Ends Stays (handle_from sys lockdown info udid early sleeps 1 w)
  unfolding after_try
  handle_from-Gone =
      attempt Gone 0 (λ w n (store, r, gone). (store, called-Refines n r, gone))
        (λ w (store, r, gone). (store, r))
        (λ w i.
          Ends-bind (try_session sys lockdown info udid early sleeps) _
            (λ e w'. R w' × (e ≡ invalid_host_id)) Stays w (try-Gone w i)
            (λ e w' h. rw h.1 (ask-Halts false w' h.0)))

  -- A removal that answers 0 has removed the record.
  removed-Gone :
      (store : List ℕ → Option (List ℕ)) (a : ℤ) (w : World)
      → RemoveAnswer sys dir store udid a w
      → (a ≡ pos 0) × Gone w ⊎ ((n : ℕ) × (a ≡ negsuc n)) × R w
  removed-Gone store a w (inl gone) =
      inl (gone.0, (at_name store udid none, gone.1, rw (eq_bytes_self udid) refl))
  removed-Gone store a w (inr ((zero, at, inl e), r)) = absurd (omega arith)
  removed-Gone store a w (inr ((zero, at, inr (m, e)), r)) = absurd (errno m e)
  removed-Gone store a w (inr ((suc n, at, e), r)) = inr ((n, at), (store, r))

  after_removal :
      (a : ℤ) (w : World)
      → (a ≡ pos 0) × Gone w ⊎ ((n : ℕ) × (a ≡ negsuc n)) × R w
      → Ends Stays (
          (elim a as (λ _. M Left) [
            | pos zero ↦ handle_from sys lockdown info udid early sleeps 1
            | _ ↦ ask_device sys lockdown info udid early sleeps false
          ])
            w)
  after_removal a w (inl (e, gone)) = rw e (handle_from-Gone w gone)
  after_removal a w (inr ((n, e), i)) = rw e (ask-Halts false w i)

  after_try-Halts :
      (e : LockdownError)
      → Halts R (
          after_try sys lockdown info udid early sleeps
            (handle_from sys lockdown info udid early sleeps 1)
            e)
  unfolding after_try
  after_try-Halts success w i =
      announced-Halts sys lockdown dir pairs info udid early sleeps waits with_lockdown w i
  after_try-Halts invalid_host_id w i = ask-Halts false w i
  after_try-Halts ssl_error w (store, r) =
      Ends-bind (config_remove_device_record sys udid) _ (RemoveAnswer sys dir store udid) Stays w
        (Ensures→Ends _ _ (config_remove_device_record sys udid w)
          (config_remove_device_record-Refines sys dir store udid w r) (λ a w' h. h))
        (λ a w' h. after_removal a w' (removed-Gone store a w' h))
  after_try-Halts password_protected w i = ask-Halts true w i
  after_try-Halts other_error w i = ask-Halts true w i

  session_if-Halts :
      (has : ℤ)
      → Halts R (elim has as (λ _. M LockdownError) [
        | pos zero ↦ pure invalid_host_id
        | _ ↦ session sys lockdown info udid early sleeps
      ])
  session_if-Halts (pos zero) w i = i
  session_if-Halts (pos (suc n)) w i =
      session-Halts sys lockdown dir pairs info udid early sleeps waits w i
  session_if-Halts (negsuc n) w i =
      session-Halts sys lockdown dir pairs info udid early sleeps waits w i

  try_session-Halts : Halts R (try_session sys lockdown info udid early sleeps)
  unfolding try_session
  try_session-Halts =
      Halts-bind R (config_has_device_record sys (some udid)) _
        (λ w (store, r).
          Ensures→Ends _ _ (config_has_device_record sys (some udid) w)
            (config_has_device_record-Missing sys dir udid store w r) (λ has w' h. (store, h.0)))
        session_if-Halts

  pub handle_from-Ends :
      (w : World) → R w → Ends Stays (handle_from sys lockdown info udid early sleeps 2 w)
  handle_from-Ends =
      attempt R 1 (λ w n i. same-Rooted w _ refl refl i) (λ w i. i)
        (Halts-bind R (try_session sys lockdown info udid early sleeps) _ try_session-Halts
          after_try-Halts)

-- With error numbers that are not 0, where lockdownd_pair returns with the configuration directory in
-- order and the data of the callbacks as they were, and where among the events of the sleeps there
-- is an end, that is, the removal of the device, the empty notification or the request for the
-- pairing: the worker comes to its end, with or without a wait, after two attempts at most, for any
-- answers of the device, any clients and any other events, and the configuration directory is in
-- order still; unless it touches memory that it may not.
pub preflight_worker_handle_device_add-Ends :
    (sys : Sys) (lockdown : Lockdown) (dir : List ℕ) (info : DeviceInfo) (early : List Event)
    (sleeps : List (List Event)) (w : World)
    → ((v : World)
        → Rooted dir v
        → Ensures
            (λ e v'. Rooted dir v' × ((p : ℕ) → v'.cb_data p ≡ v.cb_data p))
            (lockdown.pair v))
    → ((n : ℕ) → sys.refused n ≢ some 0)
    → some_sleep_ends sleeps ≡ true
    → Rooted dir w
    → Ends
        (λ left w'. Rooted dir w')
        (preflight_worker_handle_device_add sys lockdown info early sleeps w)
unfolding preflight_worker_handle_device_add
preflight_worker_handle_device_add-Ends sys lockdown dir info early sleeps w pairs errno over i =
    go info.serial
  where
    halts : Halts (Rooted dir) lockdown.pair
    halts v r = Ensures→Ends _ _ (lockdown.pair v) (pairs v r) (λ e v' h. h.0)

    go :
        (serial : Option (List ℕ))
        → Ends
            (λ left w'. Rooted dir w')
            ((deref serial >>= λ udid. handle_from sys lockdown info udid early sleeps 2) w)
    go none = tt
    go (some udid) =
        handle_from-Ends sys lockdown dir halts errno info udid early sleeps
          (wait_for_trust-Ends sys lockdown dir halts pairs sleeps over) w i
