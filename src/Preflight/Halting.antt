-- ===== src/Preflight/Halting.antt =====
-- The steps of src/preflight.c come to an end with the configuration directory in order, where
-- lockdownd_pair does.
use usbmuxd.Prelude.{
  Bool, Bool-cases, List, Option, [], false, inl, inr, none, not, refl, some, true, ℕ, ◌∷◌,
}
use usbmuxd.World.{
  Ends, Ensures→Ends, Halts, Halts-bind, Sys, World, call, deref, load_cb, pure, store_cb, ◌>>=◌,
}
use usbmuxd.Conf.Buid.{config_get_system_buid}
use usbmuxd.Conf.Rooted.{Rooted, config_get_system_buid-Rooted, same-Rooted}
use usbmuxd.Client.State.{MuxClient}
use usbmuxd.Device.State.{MuxDevice}
use usbmuxd.Preflight.State.{CbData}
use usbmuxd.Preflight.Lockdown.{
  Lockdown, LockdownError, invalid_host_id, other_error, password_protected, ssl_error, success,
}
use usbmuxd.Preflight.Callback.{
  answer_buid, lockdownd_client_new, lockdownd_set_untrusted_host_buid, np_callback,
  on_notification, pair_now, preflight_device_remove_cb,
}
use usbmuxd.Preflight.Worker.{
  Event, happen, happen_all, is_waiting, notified, removal, wait_for_trust,
}

module _ (sys : Sys) (lockdown : Lockdown) (dir : List ℕ)
    (pairs : Halts (Rooted dir) lockdown.pair) where
  abbrev R : World → Type 0
  R = Rooted dir

  pub other :
      (w : World) (n : ℕ) (d : ℕ → Option MuxDevice) (c : ℕ → Option MuxClient)
      → R w
      → R (record w { calls = n; dev = d; client = c })
  other w n d c i = same-Rooted w _ refl refl i

  pub call-Halts : Halts R call
  call-Halts w i = same-Rooted w _ refl refl i

  pub load_cb-Halts : (p : ℕ) → Halts R (load_cb p)
  load_cb-Halts p w i = go (w.cb_data p)
    where
      go : (o : Option CbData) → Ends (λ a w'. R w') (deref o w)
      go none = tt
      go (some c) = i

  change_cb-Halts : (p : ℕ) (f : CbData → CbData) → Halts R (load_cb p >>= λ c. store_cb p (f c))
  change_cb-Halts p f =
      Halts-bind R (load_cb p) (λ c. store_cb p (f c)) (load_cb-Halts p)
        (λ c w i. same-Rooted w _ refl refl i)

  pub untrusted-Halts : Halts R (lockdownd_set_untrusted_host_buid sys lockdown)
  unfolding lockdownd_set_untrusted_host_buid
  untrusted-Halts =
      Halts-bind R (config_get_system_buid sys) _
        (λ w i.
          Ensures→Ends (λ s w'. R w') (λ s w'. R w') (config_get_system_buid sys w)
            (config_get_system_buid-Rooted sys dir w i) (λ s w' i'. i'))
        (λ s w i. same-Rooted w _ refl refl i)

  pair_now-Halts : (e : LockdownError) → Halts R (pair_now sys lockdown e)
  pair_now-Halts success w i = Halts-bind R lockdown.pair (λ _. pure tt) pairs (λ e w' i'. i') w i
  pair_now-Halts invalid_host_id w i = i
  pair_now-Halts ssl_error w i = i
  pair_now-Halts password_protected w i = i
  pair_now-Halts other_error w i = i

  answer_buid-Halts : (e : LockdownError) → Halts R (answer_buid sys lockdown e)
  answer_buid-Halts success w i = untrusted-Halts w i
  answer_buid-Halts invalid_host_id w i = i
  answer_buid-Halts ssl_error w i = i
  answer_buid-Halts password_protected w i = i
  answer_buid-Halts other_error w i = i

  pub client_new-Halts : Halts R (lockdownd_client_new sys lockdown)
  client_new-Halts = Halts-bind R call (λ n. pure (lockdown.client_new n)) call-Halts (λ n w i. i)

  on_notification-Halts :
      (p : ℕ) (e pair buid : Bool) → Halts R (on_notification sys lockdown p e pair buid)
  on_notification-Halts p true pair buid w i = change_cb-Halts p _ w i
  on_notification-Halts p false true buid w i =
      Halts-bind R (lockdownd_client_new sys lockdown) _ client_new-Halts
        (λ e.
          Halts-bind R (pair_now sys lockdown e) _ (pair_now-Halts e)
            (λ u. change_cb-Halts p (λ c. record c { is_finished = true })))
        w i
  on_notification-Halts p false false true w i =
      Halts-bind R (lockdownd_client_new sys lockdown) _ client_new-Halts answer_buid-Halts w i
  on_notification-Halts p false false false w i = i

  happen-Halts : (p : ℕ) (e : Event) → Halts R (happen sys lockdown p e)
  unfolding happen np_callback preflight_device_remove_cb
  happen-Halts p (notified notification) w i = on_notification-Halts p _ _ _ w i
  happen-Halts p removal w i = change_cb-Halts p _ w i

  pub happen_all-Halts : (p : ℕ) (es : List Event) → Halts R (happen_all sys lockdown p es)
  unfolding happen_all
  happen_all-Halts p [] w i = i
  happen_all-Halts p (e ∷ es) w i =
      Halts-bind R (happen sys lockdown p e) _ (happen-Halts p e) (λ u. happen_all-Halts p es) w i

  pub wait-Halts :
      (p : ℕ) (sleeps : List (List Event)) → Halts R (wait_for_trust sys lockdown p sleeps)
  unfolding wait_for_trust
  wait-Halts p [] w i =
      Halts-bind R (load_cb p) (λ c. pure (not (is_waiting c))) (load_cb-Halts p) (λ c w' i'. i') w
        i
  wait-Halts p (es ∷ sleeps) w i =
      Halts-bind R (load_cb p) _ (load_cb-Halts p)
        (λ c w' i'. elim (Bool-cases (is_waiting c)) [
          | inl e ↦ rw e (
              Halts-bind R (happen_all sys lockdown p es) _ (happen_all-Halts p es)
                (λ u. wait-Halts p sleeps) w' i')
          | inr e ↦ rw e i'
        ])
        w i
