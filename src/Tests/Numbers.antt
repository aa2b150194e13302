-- ===== src/Tests/Numbers.antt =====
-- The theorems on ports, ids and windows at concrete inputs.
use usbmuxd.Prelude.{
  [], arith, false, m16, m32, mem, refl, ℕ, ◌%◌, ◌+◌, ◌-◌, ◌<◌, ◌↔◌, ◌∷◌, ◌≡◌, ◌≤◌,
}
use usbmuxd.World.{ret}
use usbmuxd.Tests.Fixture.{phone, start, stream}
use usbmuxd.Device.Find.{find_sport, get_next_device_id}
use usbmuxd.Device.Find.Sport.{find_sport_fresh, ports_in, took_port}
use usbmuxd.Device.Find.DeviceId.{get_next_device_id_fresh, ids_in}
use usbmuxd.Device.Window.{in_flight, update_masks}
use usbmuxd.Device.Window.Bounds.{sendable_largest}

find_sport_fresh_example :
    (v : ℕ) × (find_sport 2 start ≡ ret v (took_port start 2 phone v))
    × (mem (ports_in start (3 ∷ [])) v ≡ false)
    × (v < m16)
find_sport_fresh_example =
    find_sport_fresh start 2 phone (3 ∷ []) refl refl ((stream, refl), tt) (omega arith)
      (omega arith)

get_next_device_id_fresh_example :
    (id : ℕ) × (get_next_device_id start
      ≡ ret id (record start { next_device_id = (id + 1) % m32 }))
    × (mem (ids_in start (2 ∷ [])) id ≡ false)
    × (id < m32)
get_next_device_id_fresh_example =
    get_next_device_id_fresh start ((phone, refl), tt) (omega arith) (omega arith)

sendable_largest_example : (49116 ≤ (update_masks stream).sendable) ↔ (
    (49116 ≤ stream.rx_win - in_flight stream)
    × (49116 ≤ stream.ob_capacity)
    × (49116 ≤ stream.max_payload))
sendable_largest_example = sendable_largest stream 49116
