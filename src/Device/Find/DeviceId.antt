-- ===== src/Device/Find/DeviceId.antt =====
-- `get_next_device_id` of src/device.c returns, and the id is one that no device has.
use usbmuxd.Prelude.{
  List, Option, [], ap, arith, false, length, m32, mem, none, refl, some, suc, ℕ, ◌%◌, ◌+◌, ◌<◌,
  ◌∷◌, ◌≡◌,
}
use usbmuxd.World.{World, ret}
use usbmuxd.Device.State.{MuxDevice}
use usbmuxd.Device.Find.{get_next_device_id, ids_of}
use usbmuxd.Device.Ports.{first_free, first_free_sound, first_free_total}

-- The devices are live objects.
abbrev pub AllDev : World → List ℕ → Type 0
AllDev w [] = Unit {0}
AllDev w (p ∷ ps) = ((d : MuxDevice) × (w.dev p ≡ some d)) × AllDev w ps

abbrev id_in : Option MuxDevice → ℕ
id_in none = 0
id_in (some d) = d.id

-- The ids in use, in the order of the collection.
abbrev pub ids_in : World → List ℕ → List ℕ
ids_in w [] = []
ids_in w (p ∷ ps) = id_in (w.dev p) ∷ ids_in w ps

ids_of_lem : (w : World) (ps : List ℕ) → AllDev w ps → ids_of ps w ≡ ret (ids_in w ps) w
unfolding ids_of
ids_of_lem w [] live = refl
ids_of_lem w (p ∷ ps) ((d, e), live) = ground (arith, ids_of_lem w ps live)

length-ids_in : (w : World) (ps : List ℕ) → length (ids_in w ps) ≡ length ps
length-ids_in w [] = refl
length-ids_in w (p ∷ ps) = ap suc (length-ids_in w ps)

-- With live devices, fewer than 2^32 of them, `get_next_device_id` returns: its loop ends within
-- one round more than there are devices. The id fits an `int`'s 32 bits and no device has it; only
-- the counter changes, to the id after it.
pub get_next_device_id_fresh :
    (w : World)
    → AllDev w w.device_list
    → w.next_device_id < m32
    → length w.device_list < m32
    → (id : ℕ) × (get_next_device_id w ≡ ret id (record w { next_device_id = (id + 1) % m32 }))
      × (mem (ids_in w w.device_list) id ≡ false)
      × (id < m32)
unfolding get_next_device_id
get_next_device_id_fresh w live small room =
    go (first_free_total m32 w.next_device_id used small short)
  where
    used : List ℕ
    used = ids_in w w.device_list

    short : length used < m32
    short = omega (arith, length-ids_in w w.device_list)

    go :
        (id : ℕ) × (first_free m32 (suc (length used)) w.next_device_id used ≡ some id)
        → (id : ℕ) × (get_next_device_id w ≡ ret id (record w { next_device_id = (id + 1) % m32 }))
          × (mem used id ≡ false)
          × (id < m32)
    go (id, e) =
        let s = first_free_sound m32 _ w.next_device_id used small e in
        (id, ground (arith, ids_of_lem w w.device_list live), s.0, s.1)
