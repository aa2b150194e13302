-- ===== src/Device/Find/Sport.antt =====
-- `find_sport` of src/device.c returns, and the port is one that no connection of the device has.
use usbmuxd.Device.Ports.{first_free, first_free_sound, first_free_total, first_free_unused}
use usbmuxd.Prelude.{
  List, Option, [], ap, arith, false, length, m16, mem, none, refl, some, suc, ℕ, ◌%◌, ◌+◌, ◌<◌,
  ◌∷◌, ◌≡◌, ◌≤◌,
}
use usbmuxd.World.{World, ret, update}
use usbmuxd.Device.State.{MuxConnection, MuxDevice}
use usbmuxd.Device.Find.{find_sport, sports_of}

-- The connections are live objects.
abbrev pub AllConn : World → List ℕ → Type 0
AllConn w [] = Unit {0}
AllConn w (q ∷ qs) = ((c : MuxConnection) × (w.conn q ≡ some c)) × AllConn w qs

abbrev sport_in : Option MuxConnection → ℕ
sport_in none = 0
sport_in (some c) = c.sport

-- The ports in use, in the order of the collection.
abbrev pub ports_in : World → List ℕ → List ℕ
ports_in w [] = []
ports_in w (q ∷ qs) = sport_in (w.conn q) ∷ ports_in w qs

pub sports_of_lem :
    (w : World) (qs : List ℕ) → AllConn w qs → sports_of qs w ≡ ret (ports_in w qs) w
unfolding sports_of
sports_of_lem w [] live = refl
sports_of_lem w (q ∷ qs) ((c, e), live) = ground (arith, sports_of_lem w qs live)

length-ports_in : (w : World) (qs : List ℕ) → length (ports_in w qs) ≡ length qs
length-ports_in w [] = refl
length-ports_in w (q ∷ qs) = ap suc (length-ports_in w qs)

-- The device after the port `v` was handed out.
abbrev pub took_port : World → ℕ → MuxDevice → ℕ → World
took_port w p d v = record w {
  dev = update w.dev p (some (record d { next_sport = (v + 1) % m16 }));
}

module _ (w : World) (p : ℕ) (d : MuxDevice) (qs : List ℕ) (at_p : w.dev p ≡ some d)
    (set_up : d.connections ≡ some qs) (live : AllConn w qs) where
  -- On a device that is set up and has fewer than 65535 connections `find_sport` returns: its loop
  -- ends within one round more than there are connections. The port is a `uint16_t` that no
  -- connection of the device has, and only the device's counter changes.
  pub find_sport_fresh :
      d.next_sport < m16
      → length qs < 65535
      → (v : ℕ) × (find_sport p w ≡ ret v (took_port w p d v))
        × (mem (ports_in w qs) v ≡ false)
        × (v < m16)
  unfolding find_sport
  find_sport_fresh small room = go (first_free_total m16 d.next_sport (ports_in w qs) small short)
    where
      short : length (ports_in w qs) < m16
      short = omega (arith, length-ports_in w qs)

      go :
          (v : ℕ) × (first_free m16 (suc (length (ports_in w qs))) d.next_sport (ports_in w qs)
              ≡ some v)
          → (v : ℕ) × (find_sport p w ≡ ret v (took_port w p d v))
            × (mem (ports_in w qs) v ≡ false)
            × (v < m16)
      go (v, e) =
          let s = first_free_sound m16 _ d.next_sport (ports_in w qs) small e in
          (v, ground (arith, sports_of_lem w qs live), s.0, s.1)

  -- The counter itself, if no connection has that port.
  pub find_sport_next :
      length qs < 65535
      → mem (ports_in w qs) d.next_sport ≡ false
      → find_sport p w ≡ ret d.next_sport (took_port w p d d.next_sport)
  unfolding find_sport
  find_sport_next room unused = ground (
    arith,
    sports_of_lem w qs live,
    first_free_unused m16 (length (ports_in w qs)) d.next_sport (ports_in w qs) unused,
  )

  -- With 65535 connections or more it gives up: the port 0, and nothing changes.
  pub find_sport_full : 65535 ≤ length qs → find_sport p w ≡ ret 0 w
  unfolding find_sport
  find_sport_full full = ground arith
