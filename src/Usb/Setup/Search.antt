-- ===== src/Usb/Setup/Search.antt =====
-- The search in the list of USB devices, `find_usb`, finds a device if one fits.
use usbmuxd.Prelude.{
  Bool, Bool-cases, List, Option, [], ap, arith, false, inl, inr, none, refl, some, sym, ℕ, ◌<◌,
  ◌∙◌, ◌∷◌, ◌≡◌, ◌⊎◌,
}
use usbmuxd.World.{Ensures, Ensures-mono, World, count, ◌>>=◌}
use usbmuxd.Usb.State.{UsbDevice}
use usbmuxd.Usb.Setup.{find_usb}

pub some_inj : {A : Type 0} (a b : A) → some a ≡ some b → a ≡ b
some_inj a b e = cc

-- The answer of the search: a listed device, or there is none that fits.
abbrev pub Searched : (UsbDevice → Bool) → List ℕ → World → Option ℕ → World → Type 0
Searched test qs w r w' =
    (w' ≡ w)
    × (((p : ℕ) × (r ≡ some p) × (0 < count p qs))
        ⊎ ((r ≡ none)
            × ((q : ℕ) (e : UsbDevice) → 0 < count q qs → w.usb q ≡ some e → test e ≡ false)))

count_head : (q : ℕ) (qs : List ℕ) → 0 < count q (q ∷ qs)
count_head q qs = ground arith

count_tail : (p q : ℕ) (qs : List ℕ) → 0 < count p qs → 0 < count p (q ∷ qs)
count_tail p q qs h = ground arith

count_cons : (p q : ℕ) (qs : List ℕ) → 0 < count p (q ∷ qs) → (q ≡ p) ⊎ (0 < count p qs)
count_cons p q qs h = ground arith

pub find_usb-Searched :
    (test : UsbDevice → Bool) (qs : List ℕ) (w : World)
    → ((q : ℕ) → 0 < count q qs → (d : UsbDevice) × (w.usb q ≡ some d))
    → Ensures (Searched test qs w) (find_usb test qs w)
unfolding find_usb
find_usb-Searched test [] w live = (refl, inr (refl, λ q e h at. absurd (omega arith)))
find_usb-Searched test (q ∷ qs) w live =
    let d = live q (count_head q qs) in
    rw (d.1, ◌>>=◌)
      (elim (Bool-cases (test d.0)) [
        | inl yes_fits ↦ rw yes_fits (refl, inl (q, refl, count_head q qs))
        | inr misfit ↦ rw misfit (
            Ensures-mono (Searched test qs w) _ (find_usb test qs w)
              (find_usb-Searched test qs w (λ p h. live p (count_tail p q qs h)))
              (λ r w' s. (
                s.0,
                elim (s.1) [
                  | inl found ↦ inl (found.0, found.1, count_tail found.0 q qs found.2)
                  | inr missing ↦ inr (
                    missing.0,
                    λ p e h at. elim (count_cons p q qs h) [
                      | inl same ↦
                          ap test (some_inj e d.0 (sym at ∙ ap w.usb (sym same) ∙ d.1)) ∙ misfit
                      | inr later ↦ missing.1 p e later at
                    ],
                  )
                ],
              )))
      ])
