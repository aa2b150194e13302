-- ===== src/Device/Shutdown.antt =====
-- device_init, device_kill_connections and device_shutdown of src/device.c.
use usbmuxd.Prelude.{Bool, List, [], false, if◌then◌else◌, true, ℕ, ℤ, ◌∷◌}
use usbmuxd.World.{M, Sys, deref, free_dev, load_dev, pure, ret, ◌>>=◌, ◌>>◌}
use usbmuxd.Device.State.{DevState, init}
use usbmuxd.Device.Lifecycle.{teardown_all}

unfoldable pub device_init : M (Unit {0})
device_init w = ret tt (record w { device_list = []; next_device_id = 1 })

abbrev is_init : DevState → Bool
is_init init = true
is_init _ = false

module _ (sys : Sys) where
  unfoldable pub kill_devs : List ℕ → M (Unit {0})
  unfolding teardown_all
  kill_devs [] = pure tt
  kill_devs (p ∷ ps) = do
    d ← load_dev p
    if is_init d.state then pure tt else (do qs ← deref d.connections; teardown_all sys qs)
    kill_devs ps

  -- `usb_process_timeout` stands for the call of it with 100 ms; its result is not used.
  unfoldable pub device_kill_connections : M ℤ → M (Unit {0})
  unfolding kill_devs
  device_kill_connections usb_process_timeout w =
      (do kill_devs w.device_list; res ← usb_process_timeout; pure tt) w

  unfoldable pub free_devs : List ℕ → M (Unit {0})
  unfolding teardown_all
  free_devs [] = pure tt
  free_devs (p ∷ ps) = do
    d ← load_dev p
    qs ← deref d.connections
    teardown_all sys qs
    λ w. ret tt (record w { device_list = sys.collection_remove w.device_list p })
    free_dev p
    free_devs ps

  unfoldable pub device_shutdown : M (Unit {0})
  unfolding free_devs
  device_shutdown w = (do free_devs w.device_list; λ w. ret tt (record w { device_list = [] })) w
