-- ===== src/Usb/Mode.antt =====
-- The callbacks of the mode requests in src/usb.c: get_mode_cb and switch_mode_cb.
use usbmuxd.Prelude.{
  Bool, Option, false, get_or, if◌then◌else◌, ltb, negsuc, none, not, pos, some, zero, ℕ, ℤ, ◌&&◌,
  ◌==◌,
}
use usbmuxd.World.{M, Sys, pure, ◌>>=◌}
use usbmuxd.Usb.State.{ModeContext}
use usbmuxd.Usb.Callbacks.{Status, completed, ended}
use usbmuxd.Usb.Configure.{guess_mode}
use usbmuxd.Usb.Setup.{
  device_complete_initialization, find_device, request_set_mode, set_alive, submit_vendor_specific,
  within,
}

module _ (sys : Sys) where
  -- Only an answer that starts with 0 means that the mode was changed; the device then comes back.
  unfoldable pub switch_mode_cb : ModeContext → ℕ → Status → M (Unit {0})
  unfolding device_complete_initialization
  switch_mode_cb context handle ended = device_complete_initialization sys context handle
  switch_mode_cb context handle (completed bytes) =
      if get_or bytes 0 (sys.stale 0) == 0
      then pure tt
      else device_complete_initialization sys context handle

  -- The mode that the user wants, 1 if the variable is not set.
  abbrev desired_mode : Option ℤ → ℤ
  desired_mode none = pos 1
  desired_mode (some m) = m

  -- The request to switch, for a mode from 1 to 5 that is not the guessed one.
  unfoldable pub should_switch : ℤ → ℕ → Bool
  should_switch (negsuc n) guessed = false
  should_switch (pos m) guessed = within 1 5 m && (ltb 0 guessed && not (guessed == m))

  abbrev pub mode_number : ℤ → ℕ
  mode_number (pos m) = m
  mode_number (negsuc n) = 0

  unfoldable pub request_mode : ModeContext → ℕ → ℕ → M (Unit {0})
  unfolding submit_vendor_specific
  request_mode context p mode = do
    res ←
        submit_vendor_specific sys
          (record context { request = request_set_mode; value = 0; index = mode; length = 1 })
    elim res [ pos zero ↦ pure tt | _ ↦ set_alive p false ]

  unfoldable pub get_mode_of : ModeContext → ℕ → Status → Option ℕ → M (Unit {0})
  unfolding device_complete_initialization guess_mode should_switch request_mode
  get_mode_of context handle status none = pure tt
  get_mode_of context handle ended (some p) = device_complete_initialization sys context handle
  get_mode_of context handle (completed bytes) (some p) = do
    guessed ← guess_mode sys context.dev p
    let desired = desired_mode sys.device_mode
    if should_switch desired guessed
        then request_mode context p (mode_number desired)
        else device_complete_initialization sys context handle

  unfoldable pub get_mode_cb : ModeContext → ℕ → Status → M (Unit {0})
  unfolding find_device get_mode_of
  get_mode_cb context handle status = do
    found ← find_device context.bus context.address
    get_mode_of context handle status found
