-- ===== src/Usb/Configure/Kept.antt =====
-- What set_valid_configuration of src/usb.c keeps of an interface that it found.
use usbmuxd.Prelude.{
  Bool, Bool-cases, List, Option, [], false, if◌then◌else◌, inl, inr, negsuc, none, not, pos, refl,
  some, suc, true, zero, ℕ, ℤ, ◌==◌, ◌||◌, ◌∷◌, ◌≡◌,
}
use usbmuxd.World.{Ensures, Ensures-bind, Sys, World, count, pure, update, update_self, ◌>>=◌}
use usbmuxd.Usb.State.{Configuration, Interface, UsbDevice}
use usbmuxd.Usb.Configure.{
  change_configuration, configure, detach_driver, detach_drivers, is_zero, noted, pick_interface,
  set_valid_configuration, try_configurations,
}

-- The device of the object is still there.
abbrev Live : ℕ → World → Type 0
Live p w = (d : UsbDevice) × (w.usb p ≡ some d)

module _ (sys : Sys) (dev p : ℕ) where
  AfterDriver : Unit {0} → World → Type 0
  AfterDriver u w = Live p w

  detach_driver-Live :
      (r : ℤ) (w : World) → Live p w → Ensures (λ u w'. Live p w') (detach_driver sys r w)
  detach_driver-Live (pos zero) w l = l
  detach_driver-Live (pos (suc zero)) w l = l
  detach_driver-Live (pos (suc (suc n))) w l = l
  detach_driver-Live (negsuc n) w l = l

  detach_drivers-Live :
      (is : List Interface) (w : World)
      → Live p w
      → Ensures (λ u w'. Live p w') (detach_drivers sys is w)
  unfolding detach_drivers
  detach_drivers-Live [] w l = l
  detach_drivers-Live (i ∷ is) w l =
      Ensures-bind (detach_driver sys (sys.kernel_driver_active w.calls))
        (λ u. detach_drivers sys is) (λ u w'. Live p w') (λ u w'. Live p w')
        (record w { calls = suc w.calls })
        (detach_driver-Live (sys.kernel_driver_active w.calls) (record w { calls = suc w.calls }) l)
        (λ u w' l'. detach_drivers-Live is w' l')

  change_configuration-Live :
      (current : ℕ) (config : Configuration) (w : World)
      → Live p w
      → Ensures (λ r w'. Live p w') (change_configuration sys current config w)
  unfolding change_configuration
  change_configuration-Live current config w l =
      elim (Bool-cases (current == 0 || not (config.value == current))) [
        | inl e ↦ rw e (
            Ensures-bind (detach_drivers sys config.interfaces) _ (λ u w'. Live p w')
              (λ r w'. Live p w') w (detach_drivers-Live config.interfaces w l) (λ u w' l'. l'))
        | inr e ↦ rw e l
      ]

  -- What was found, and the object.
  abbrev Found : Bool → World → Type 0
  Found b w = (b ≡ true) × Live p w

  noted-Found : (o : Option UsbDevice) (w : World) → Live p w → Ensures Found (noted sys p true o w)
  noted-Found none w l = (refl, l)
  noted-Found (some d) w l = (refl, (d, update_self w.usb p (some d)))

  abbrev StillFound : Bool × Bool → World → Type 0
  StillFound a w = (a.1 ≡ true) × Live p w

  -- An interface was found, by now or in this configuration.
  configure_rest :
      (current : ℕ) (config : Configuration) (found : Bool) (w : World)
      → Found found w
      → Ensures StillFound (
          (if not found
              then pure (false, found)
              else (do res ← change_configuration sys current config; pure (is_zero res, found)))
            w)
  configure_rest current config found w h = rw (h.0) (
      Ensures-bind (change_configuration sys current config) _ (λ r w'. Live p w') StillFound w
        (change_configuration-Live current config w h.1) (λ r w' l. (refl, l)))

  configure-StillFound :
      (current : ℕ) (c : Option Configuration) (w : World)
      → Live p w
      → Ensures StillFound (configure sys p current true c w)
  configure-StillFound current none w l = (refl, l)
  configure-StillFound current (some config) w l =
      rw (l.1, ◌>>=◌)
        (Ensures-bind (noted sys p true (pick_interface l.0 config.interfaces)) _ Found StillFound w
          (noted-Found (pick_interface l.0 config.interfaces) w l) (configure_rest current config))

  -- Nothing makes the code forget that it found an interface.
  try_configurations-Found :
      (current j : ℕ) (w : World)
      → Live p w
      → Ensures Found (try_configurations sys dev p current j true w)
  unfolding try_configurations
  try_configurations-Found current zero w l = (refl, l)
  try_configurations-Found current (suc j) w l =
      Ensures-bind (configure sys p current true (sys.config_descriptor w.calls dev (suc j))) _
        StillFound Found (record w { calls = suc w.calls })
        (configure-StillFound current (sys.config_descriptor w.calls dev (suc j))
          (record w { calls = suc w.calls }) l)
        (λ a w' h. elim (Bool-cases (a.0)) [
          | inl e ↦ rw e h
          | inr e ↦ rw (e, h.0) (try_configurations-Found current j w' h.1)
        ])

  -- The first configuration that is asked for has an interface that fits.
  first-Found :
      (current j : ℕ) (config : Configuration) (d d' : UsbDevice) (w : World)
      → w.usb p ≡ some d
      → sys.config_descriptor w.calls dev (suc j) ≡ some config
      → pick_interface d config.interfaces ≡ some d'
      → Ensures Found (try_configurations sys dev p current (suc j) false w)
  unfolding try_configurations
  first-Found current j config d d' w at c i =
      Ensures-bind (configure sys p current false (sys.config_descriptor w.calls dev (suc j))) _
        StillFound Found (record w { calls = suc w.calls })
        (rw (c, at, ◌>>=◌, i)
          (configure_rest current config true
            (record w { calls = suc w.calls; usb = update w.usb p (some d') })
            (refl, (d', update_self w.usb p (some d')))))
        (λ a w' h. elim (Bool-cases (a.0)) [
          | inl e ↦ rw e h
          | inr e ↦ rw (e, h.0) (try_configurations-Found current j w' h.1)
        ])

  -- Once an interface fits in the first configuration that is asked for, the last one of the
  -- device, set_valid_configuration returns 0, also where every change of the configuration fails.
  pub set_valid_configuration-found :
      (current j : ℕ) (config : Configuration) (d d' : UsbDevice) (w : World)
      → w.usb p ≡ some d
      → d.devdesc.configurations ≡ suc j
      → sys.get_configuration w.calls ≡ some current
      → sys.config_descriptor (suc w.calls) dev (suc j) ≡ some config
      → pick_interface d config.interfaces ≡ some d'
      → Ensures (λ r w'. r ≡ pos 0) (set_valid_configuration sys dev p w)
  unfolding set_valid_configuration
  set_valid_configuration-found current j config d d' w at count get c i =
      rw (at, ◌>>=◌, get, count)
        (Ensures-bind (try_configurations sys dev p current (suc j) false) _ Found
          (λ r w'. r ≡ pos 0) (record w { calls = suc w.calls })
          (first-Found current j config d d' (record w { calls = suc w.calls }) at c i)
          (λ b w' h. rw h.0 refl))
