-- ===== src/Preflight/Callback.antt =====
-- What reaches a waiting worker of src/preflight.c: np_callback, preflight_device_remove_cb, and
-- lockdownd_set_untrusted_host_buid, which the worker calls too.
use usbmuxd.Prelude.{Bool, List, Option, [], eq_bytes, false, none, some, true, ℕ}
use usbmuxd.Plist.{codes}
use usbmuxd.World.{M, Sys, call, emit, load_cb, pure, store_cb, untrusted_host_buid, ◌>>=◌, ◌>>◌}
use usbmuxd.Conf.Buid.{config_get_system_buid}
use usbmuxd.Preflight.Lockdown.{Lockdown, LockdownError, success}

abbrev pub request_pair : List ℕ
request_pair = codes "com.apple.mobile.lockdown.request_pair"

abbrev pub request_host_buid : List ℕ
request_host_buid = codes "com.apple.mobile.lockdown.request_host_buid"

unfoldable pub preflight_device_remove_cb : Option ℕ → M (Unit {0})
preflight_device_remove_cb none = pure tt
preflight_device_remove_cb (some p) = do
  c ← load_cb p
  store_cb p (record c { is_device_connected = false })

module _ (sys : Sys) (lockdown : Lockdown) where
  -- The result of lockdownd_set_value is not looked at.
  unfoldable pub lockdownd_set_untrusted_host_buid : M (Unit {0})
  unfolding config_get_system_buid
  lockdownd_set_untrusted_host_buid = do
    system_buid ← config_get_system_buid sys
    emit (untrusted_host_buid system_buid)

  -- `lockdownd_client_new`; a client that was made is freed again by each of its users.
  abbrev pub lockdownd_client_new : M LockdownError
  lockdownd_client_new = do n ← call; pure (lockdown.client_new n)

  -- The pairing for a user who trusts this computer, whose result is only logged.
  abbrev pub pair_now : LockdownError → M (Unit {0})
  pair_now success = do lerr ← lockdown.pair; pure tt
  pair_now _ = pure tt

  abbrev pub answer_buid : LockdownError → M (Unit {0})
  answer_buid success = lockdownd_set_untrusted_host_buid
  answer_buid _ = pure tt

  -- By the notification: whether it is empty, request_pair, or request_host_buid.
  abbrev pub on_notification : ℕ → Bool → Bool → Bool → M (Unit {0})
  on_notification p true pair buid = do c ← load_cb p; store_cb p (record c { np = none })
  on_notification p false true buid = do
    lerr ← lockdownd_client_new
    pair_now lerr
    c ← load_cb p
    store_cb p (record c { is_finished = true })
  on_notification p false false true = do lerr ← lockdownd_client_new; answer_buid lerr
  on_notification p false false false = pure tt

  unfoldable pub np_callback : List ℕ → ℕ → M (Unit {0})
  unfolding eq_bytes lockdownd_set_untrusted_host_buid
  np_callback notification p =
      on_notification p (eq_bytes notification []) (eq_bytes notification request_pair)
        (eq_bytes notification request_host_buid)
