-- ===== src/Usb/Discover.antt =====
-- The list of USB devices and the time in src/usb.c: usb_discover, the timeouts, usb_process,
-- usb_process_timeout, the hotplug callback, usb_autodiscover, usb_init.
use usbmuxd.Prelude.{
  Bool, List, Option, [], false, if◌then◌else◌, inl, inr, is_neg, length, ltb, negsuc, none, not,
  pos, some, suc, true, zero, ℕ, ℤ, ◌%◌, ◌&&◌, ◌*◌, ◌+◌, ◌-◌, ◌/◌, ◌==◌, ◌||◌, ◌∷◌,
}
use usbmuxd.World.{M, Sys, call, hang, now, pass, pure, ret, ◌>>=◌, ◌>>◌}
use usbmuxd.Usb.State.{Timeval}
use usbmuxd.Usb.Configure.{is_zero}
use usbmuxd.Usb.Disconnect.{reap_dead_devices}
use usbmuxd.Usb.Setup.{find_device, set_alive, usb_device_add}
use usbmuxd.Device.Lifecycle.{device_remove}

-- DEVICE_POLL_TIME, and how many failures are let pass.
abbrev pub device_poll_time : ℕ
device_poll_time = 1000

abbrev pub max_devlist_failures : ℕ
max_devlist_failures = 5

-- A time later by so many microseconds.
abbrev pub later : Timeval → ℕ → Timeval
later t usec = record {
  tv_sec = t.tv_sec + (t.tv_usec + usec) / 1000000;
  tv_usec = (t.tv_usec + usec) % 1000000;
}

-- `a > b` on times.
abbrev pub after : Timeval → Timeval → Bool
after a b = ltb b.tv_sec a.tv_sec || (a.tv_sec == b.tv_sec && ltb b.tv_usec a.tv_usec)

-- The milliseconds from `now` to `t`, 0 where it has passed. The clock counts whole milliseconds.
abbrev pub ms_until : Timeval → Timeval → ℕ
ms_until t now = (t.tv_sec * 1000 + t.tv_usec / 1000) - (now.tv_sec * 1000 + now.tv_usec / 1000)

unfoldable pub mark_all : Bool → List ℕ → M (Unit {0})
mark_all b [] = pure tt
mark_all b (p ∷ ps) = do set_alive p b; mark_all b ps

module _ (sys : Sys) where
  -- `get_tick_count`.
  unfoldable pub get_tick_count : M Timeval
  get_tick_count = do
    n ← call
    pass (sys.elapsed n)
    ms ← now
    pure (record { tv_sec = ms / 1000; tv_usec = ms % 1000 * 1000 })

  abbrev set_poll_time : Timeval → M (Unit {0})
  set_poll_time t w = ret tt (record w { next_dev_poll_time = t })

  unfoldable pub schedule_poll : M (Unit {0})
  unfolding get_tick_count
  schedule_poll = do t ← get_tick_count; set_poll_time (later t (device_poll_time * 1000))

  abbrev set_failures : ℕ → M (Unit {0})
  set_failures n w = ret tt (record w { devlist_failures = n })

  -- The error code of libusb, once it failed too often.
  unfoldable pub list_failed : ℕ → M ℤ
  unfolding schedule_poll
  list_failed code w =
      (do
        let failures = w.devlist_failures + 1
        set_failures failures
        if ltb max_devlist_failures failures
            then pure (negsuc code)
            else (do schedule_poll; pure (pos 0)))
        w

  -- The number of devices that were added or known.
  unfoldable pub add_all : List ℕ → M ℕ
  unfolding usb_device_add
  add_all [] = pure 0
  add_all (dev ∷ devs) = do
    res ← usb_device_add sys dev
    rest ← add_all devs
    pure (if is_neg res then rest else suc rest)

  -- Mark all as dead, mark those that are plugged in as live, reap the others.
  unfoldable pub usb_discover : (ℕ → M (Unit {0})) → M ℤ → ℕ → M ℤ
  unfolding mark_all add_all reap_dead_devices schedule_poll list_failed
  usb_discover preflight events rounds w =
      (do
        n ← call
        elim (sys.get_device_list n) [
          | inr code ↦ list_failed code
          | inl devs ↦ do
            set_failures 0
            mark_all false w.usb_list
            valid_count ← add_all devs
            reap_dead_devices sys preflight events rounds
            schedule_poll
            pure (pos valid_count)
        ])
        w

  unfoldable pub usb_autodiscover : Bool → M (Unit {0})
  usb_autodiscover enable w = ret tt (record w { device_polling = enable; device_hotplug = enable })

  unfoldable pub dev_poll_remain_ms : M ℕ
  unfolding get_tick_count
  dev_poll_remain_ms w =
      (if not w.device_polling
          then pure 100000
          else (do tv ← get_tick_count; pure (ms_until w.next_dev_poll_time tv)))
        w

  -- The smaller of the time to the next poll and libusb's, if it has one.
  abbrev earlier : ℕ → Option Timeval → ℕ
  earlier pollrem none = pollrem
  earlier pollrem (some tv) =
      let msec = tv.tv_sec * 1000 + tv.tv_usec / 1000 in if ltb pollrem msec then pollrem else msec

  unfoldable pub usb_get_timeout : M ℕ
  unfolding dev_poll_remain_ms
  usb_get_timeout = do
    pollrem ← dev_poll_remain_ms
    n ← call
    pure (earlier pollrem (sys.next_timeout n))

  module _ (preflight : ℕ → M (Unit {0})) (events : M ℤ) (rounds : ℕ) where
    abbrev discovered : ℤ → M ℤ
    discovered (negsuc n) = pure (negsuc n)
    discovered (pos n) = pure (pos 0)

    unfoldable pub usb_process : M ℤ
    unfolding reap_dead_devices dev_poll_remain_ms usb_discover
    usb_process = do
      res ← events
      if is_neg res then pure res else (do
        reap_dead_devices sys preflight events rounds
        remain ← dev_poll_remain_ms
        if remain == 0 then (usb_discover preflight events rounds >>= discovered) else pure (pos 0))

    -- The loop of usb_process_timeout, until `tfin`.
    unfoldable pub process_until : ℕ → Timeval → Timeval → M ℤ
    unfolding reap_dead_devices get_tick_count
    process_until zero tfin tcur = λ w. hang
    process_until (suc fuel) tfin tcur =
        let again = process_until fuel tfin in
        if after tfin tcur
        then (do
          res ← events
          if is_neg res
              then pure res
              else (do reap_dead_devices sys preflight events rounds; t ← get_tick_count; again t))
        else pure (pos 0)

    unfoldable pub usb_process_timeout : ℕ → ℕ → M ℤ
    unfolding process_until get_tick_count
    usb_process_timeout fuel msec = do
      tcur ← get_tick_count
      process_until fuel (later tcur (msec * 1000)) tcur

    -- LIBUSB_HOTPLUG_EVENT_DEVICE_ARRIVED.
    unfoldable pub device_arrived : ℕ → M (Unit {0})
    unfolding usb_device_add
    device_arrived dev w =
        (if w.device_hotplug then (do res ← usb_device_add sys dev; pure tt) else pure tt) w

    abbrev left : Option ℕ → M (Unit {0})
    left none = pure tt
    left (some p) = do set_alive p false; device_remove sys preflight p

    -- LIBUSB_HOTPLUG_EVENT_DEVICE_LEFT.
    unfoldable pub device_left : ℕ → M (Unit {0})
    unfolding find_device device_remove
    device_left dev = find_device (sys.bus_number dev) (sys.device_address dev) >>= left

    abbrev set_polling : Bool → M (Unit {0})
    set_polling b w = ret tt (record w { device_polling = b })

    abbrev empty_list : M (Unit {0})
    empty_list w = ret tt (record w { usb_list = [] })

    -- `hotplug` is the registration of the hotplug callback, which libusb calls back at once for
    -- the devices that are there, or `none` where libusb has no hotplug events.
    abbrev register_hotplug : Option (M ℤ) → M (Unit {0})
    register_hotplug none = pure tt
    register_hotplug (some hotplug) = do
      res ← hotplug
      if is_zero res then set_polling false else pure tt

    unfoldable pub first_devices : M ℤ
    unfolding usb_discover
    first_devices w =
        (if w.device_polling
            then usb_discover preflight events rounds
            else pure (pos (length w.usb_list)))
          w

    -- `libusb_init` is an argument.
    unfoldable pub usb_init : M ℤ → Option (M ℤ) → M ℤ
    unfolding first_devices
    usb_init libusb_init hotplug = do
      set_failures 0
      set_polling true
      res ← libusb_init
      if not (is_zero res)
          then pure (negsuc 0)
          else (do empty_list; register_hotplug hotplug; first_devices)
