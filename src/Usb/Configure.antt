-- ===== src/Usb/Configure.antt =====
-- The choice of a configuration in src/usb.c: guess_mode and set_valid_configuration.
pub mod Kept
use usbmuxd.Prelude.{
  Bool, List, Option, [], false, has_bit, if◌then◌else◌, leb, negsuc, none, not, pos, some, suc,
  true, zero, ℕ, ℤ, ◌&&◌, ◌==◌, ◌||◌, ◌∷◌,
}
use usbmuxd.World.{M, Sys, call, count, load_usb, pure, store_usb, ◌>>=◌, ◌>>◌}
use usbmuxd.Usb.State.{Configuration, Interface, UsbDevice}

abbrev pub has_valeria : Interface → Bool
has_valeria i = i.class == 255 && (i.subclass == 42 && i.protocol == 255)

abbrev pub has_cdc_ncm : Interface → Bool
has_cdc_ncm i = i.class == 2 && i.subclass == 13

abbrev pub has_usbmux : Interface → Bool
has_usbmux i = i.class == 255 && (i.subclass == 254 && i.protocol == 2)

unfoldable pub any : (Interface → Bool) → List Interface → Bool
any p [] = false
any p (i ∷ is) = p i || any p is

abbrev pub mode_of : Option Configuration → ℕ
mode_of none = 0
mode_of (some config) =
    if any has_valeria config.interfaces && any has_usbmux config.interfaces
    then 2
    else if any has_cdc_ncm config.interfaces && any has_usbmux config.interfaces
    then 3
    else 0

-- An interface that set_valid_configuration looks at: one of the three numbers is enough.
abbrev pub is_candidate : Interface → Bool
is_candidate i = i.class == 255 || (i.subclass == 254 || i.protocol == 2)

abbrev is_in : ℕ → Bool
is_in ep = has_bit 128 ep

-- `usbdev->interface`, `ep_out`, `ep_in`.
abbrev chosen : UsbDevice → Interface → ℕ → ℕ → UsbDevice
chosen d i out_ep in_ep = record d { interface = i.number; ep_out = out_ep; ep_in = in_ep }

-- The two endpoints of a candidate, in either order.
unfoldable pub with_endpoints : UsbDevice → Interface → List ℕ → Option UsbDevice
with_endpoints d i (a ∷ (b ∷ [])) =
    if not (is_in a) && is_in b
    then some (chosen d i a b)
    else if not (is_in b) && is_in a
    then some (chosen d i b a)
    else none
with_endpoints d i _ = none

-- The loop over the interfaces, which ends at the first one that fits.
unfoldable pub pick_interface : UsbDevice → List Interface → Option UsbDevice
unfolding with_endpoints
pick_interface d [] = none
pick_interface d (i ∷ is) =
    let rest = pick_interface d is in
    if is_candidate i
    then elim (with_endpoints d i i.endpoints) [ none ↦ rest | some d' ↦ some d' ]
    else rest

abbrev pub is_zero : ℤ → Bool
is_zero (pos zero) = true
is_zero _ = false

module _ (sys : Sys) where
  unfoldable pub guess_mode : ℕ → ℕ → M ℕ
  unfolding any
  guess_mode dev p = do
    d ← load_usb p
    let count = d.devdesc.configurations
    if count == 1
        then pure 5
        else if leb count 4
        then pure 1
        else if count == 6
        then pure 4
        else if not (count == 5)
        then pure 0
        else (do n ← call; pure (mode_of (sys.config_descriptor n dev 5)))

  -- The answer 1 for an interface: its kernel driver is detached.
  abbrev pub detach_driver : ℤ → M (Unit {0})
  detach_driver (pos (suc zero)) = call >>= λ n. pure tt
  detach_driver _ = pure tt

  -- Kernel drivers are asked for and detached; what fails is only logged.
  unfoldable pub detach_drivers : List Interface → M (Unit {0})
  detach_drivers [] = pure tt
  detach_drivers (i ∷ is) = do
    n ← call
    detach_driver (sys.kernel_driver_active n)
    detach_drivers is

  -- The result of `libusb_set_configuration`, where a change is required.
  unfoldable pub change_configuration : ℕ → Configuration → M ℤ
  unfolding detach_drivers
  change_configuration current config =
      if current == 0 || not (config.value == current)
      then (do detach_drivers config.interfaces; n ← call; pure (sys.set_configuration n))
      else pure (pos 0)

  -- `found` is kept from one configuration to the next.
  abbrev pub noted : ℕ → Bool → Option UsbDevice → M Bool
  noted p found none = pure found
  noted p found (some d) = store_usb p d >> pure true

  -- One configuration: whether the loop ends with it, and `found` behind it.
  abbrev pub configure : ℕ → ℕ → Bool → Option Configuration → M (Bool × Bool)
  configure p current found none = pure (false, found)
  configure p current found (some config) = do
    d ← load_usb p
    found' ← noted p found (pick_interface d config.interfaces)
    if not found'
        then pure (false, found')
        else (do res ← change_configuration current config; pure (is_zero res, found'))

  -- The configurations from `j` down, with `found` as it is so far.
  unfoldable pub try_configurations : ℕ → ℕ → ℕ → ℕ → Bool → M Bool
  unfolding pick_interface change_configuration
  try_configurations dev p current zero found = pure found
  try_configurations dev p current (suc j) found = do
    n ← call
    a ← configure p current found (sys.config_descriptor n dev (suc j))
    if a.0 then pure a.1 else try_configurations dev p current j a.1

  unfoldable pub set_valid_configuration : ℕ → ℕ → M ℤ
  unfolding try_configurations
  set_valid_configuration dev p = do
    d ← load_usb p
    n ← call
    elim (sys.get_configuration n) [
      | none ↦ pure (negsuc 0)
      | some current ↦ do
        found ← try_configurations dev p current d.devdesc.configurations false
        pure (if found then pos 0 else negsuc 0)
    ]
