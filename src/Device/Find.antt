-- ===== src/Device/Find.antt =====
-- The searches of src/device.c through its collections, and the numbers that it hands out.
pub mod Sport
pub mod DeviceId
use usbmuxd.Prelude.{
  Bool, List, Option, [], false, if◌then◌else◌, leb, length, m16, m32, none, some, suc, ℕ, ◌%◌, ◌+◌,
  ◌==◌, ◌∷◌,
}
use usbmuxd.World.{M, deref, hang, load_conn, load_dev, pure, ret, store_dev, ◌>>=◌, ◌>>◌}
use usbmuxd.Device.State.{MuxConnection, MuxDevice}
use usbmuxd.Device.Ports.{first_free}

-- `FOREACH` with a `break`: the first element of the collection that passes the test.
unfoldable pub find_dev : (MuxDevice → Bool) → List ℕ → M (Option ℕ)
find_dev test [] = pure none
find_dev test (p ∷ ps) = do d ← load_dev p; if test d then pure (some p) else find_dev test ps

unfoldable pub find_conn : (MuxConnection → Bool) → List ℕ → M (Option ℕ)
find_conn test [] = pure none
find_conn test (q ∷ qs) = do c ← load_conn q; if test c then pure (some q) else find_conn test qs

-- The connections of a device; reading them before they are set up is a fault.
abbrev pub load_connections : ℕ → M (List ℕ)
load_connections p = do d ← load_dev p; deref d.connections

abbrev pub has_client : ℕ → MuxConnection → Bool
has_client p c = elim c.client [ none ↦ false | some r ↦ r == p ]

unfoldable pub get_mux_device_for_id : ℕ → M (Option ℕ)
get_mux_device_for_id id w = find_dev (λ d. d.id == id) w.device_list w

unfoldable pub get_mux_connection : ℕ → ℕ → M (Option ℕ)
unfolding get_mux_device_for_id
get_mux_connection id client = do
  found ← get_mux_device_for_id id
  elim found [
    | none ↦ pure none
    | some p ↦ do qs ← load_connections p; find_conn (has_client client) qs
  ]

unfoldable pub ids_of : List ℕ → M (List ℕ)
ids_of [] = pure []
ids_of (p ∷ ps) = do d ← load_dev p; ids ← ids_of ps; pure (d.id ∷ ids)

unfoldable pub sports_of : List ℕ → M (List ℕ)
sports_of [] = pure []
sports_of (q ∷ qs) = do c ← load_conn q; ports ← sports_of qs; pure (c.sport ∷ ports)

-- An `int` id as its 32 bits; a counter that overflows, which C does not define, wraps.
unfoldable pub get_next_device_id : M ℕ
unfolding ids_of
get_next_device_id w =
    (do
      used ← ids_of w.device_list
      elim (first_free m32 (suc (length used)) w.next_device_id used) [
        | none ↦ λ w'. hang
        | some id ↦ λ w'. ret id (record w' { next_device_id = (id + 1) % m32 })
      ])
      w

unfoldable pub find_sport : ℕ → M ℕ
find_sport p = do
  d ← load_dev p
  qs ← deref d.connections
  if leb 65535 (length qs) then pure 0 else (do
    used ← sports_of qs
    elim (first_free m16 (suc (length used)) d.next_sport used) [
      | none ↦ λ w. hang
      | some port ↦ do store_dev p (record d { next_sport = (port + 1) % m16 }); pure port
    ])
