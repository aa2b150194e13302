-- ===== src/Usb/Disconnect/Waiting.antt =====
-- usb_disconnect of src/usb.c cancels the transfers of a device and waits for them.
use usbmuxd.Usb.Disconnect.{cancel_all, close_device, is_idle, usb_disconnect, wait_closed}
use usbmuxd.Prelude.{
  Bool, Bool-cases, List, [], arith, eq_self, false, inl, inr, is_neg, length, none, refl, some,
  suc, true, zero, ℕ, ℤ, ◌&&◌, ◌*◌, ◌+◌, ◌<◌, ◌==◌, ◌||◌, ◌∷◌, ◌≡◌, ◌≤◌, ◌⊎◌,
}
use usbmuxd.World.{
  Ensures, Ensures-bind, Ensures-mono, M, Out, Sys, World, cancelled, handle_closed,
  interface_released, update_self, ◌>>=◌,
}
use usbmuxd.Usb.State.{UsbDevice}

-- The transfers that a device has.
abbrev pub pending : UsbDevice → ℕ
pending d = length d.rx_xfers + length d.tx_xfers

-- Whether a transfer was cancelled, and whether each of some were.
abbrev pub was_cancelled : ℕ → List Out → Bool
was_cancelled x [] = false
was_cancelled x (cancelled y ∷ out) = (x == y) || was_cancelled x out
was_cancelled x (_ ∷ out) = was_cancelled x out

abbrev pub all_cancelled : List ℕ → List Out → Bool
all_cancelled [] out = true
all_cancelled (x ∷ xs) out = was_cancelled x out && all_cancelled xs out

abbrev pub AllCancelled : UsbDevice → World → Type 0
AllCancelled d w = (all_cancelled d.rx_xfers w.out ≡ true) × (all_cancelled d.tx_xfers w.out ≡ true)

-- What libusb promises of cancelled transfers: the callback of each is called in some later round of
-- events. As long as the device has transfers, and all are cancelled, a round calls the callback of
-- one at least, which takes it from the device, or the round in which this happens comes nearer. No
-- transfer is added, and the device stays.
abbrev pub Progress : ℕ → M ℤ → (World → ℕ) → Type 0
Progress p events delay =
    (w : World) (d : UsbDevice)
    → w.usb p ≡ some d
    → AllCancelled d w
    → 0 < pending d
    → Ensures
        (λ r w'.
          (d' : UsbDevice) × (w'.usb p ≡ some d')
          × AllCancelled d' w'
          × ((pending d' < pending d) ⊎ ((pending d' ≡ pending d) × (delay w' < delay w))))
        (events w)

or_true : (a : Bool) → (a || true) ≡ true
or_true true = refl
or_true false = refl

both : (a b : Bool) → a ≡ true → b ≡ true → (a && b) ≡ true
both a b h k = rw (h, k) refl

left_true : (a b : Bool) → (a && b) ≡ true → a ≡ true
left_true true b h = refl
left_true false b h = h

right_true : (a b : Bool) → (a && b) ≡ true → b ≡ true
right_true true b h = h
right_true false b h = absurd cc

-- Another entry of the trace leaves a transfer cancelled.
was_cancelled-later :
    (x : ℕ) (o : Out) (out : List Out)
    → was_cancelled x out ≡ true
    → was_cancelled x (o ∷ out) ≡ true
was_cancelled-later x (cancelled y) out h = rw h (or_true (x == y))
was_cancelled-later x _ out h = h

all_cancelled-later :
    (xs : List ℕ) (o : Out) (out : List Out)
    → all_cancelled xs out ≡ true
    → all_cancelled xs (o ∷ out) ≡ true
all_cancelled-later [] o out h = refl
all_cancelled-later (x ∷ xs) o out h =
    both _ _ (was_cancelled-later x o out (left_true _ (all_cancelled xs out) h))
      (all_cancelled-later xs o out (right_true (was_cancelled x out) _ h))

-- One transfer less is worth more rounds than any delay.
fewer_rounds : (a b n k : ℕ) → a < b → k ≤ n → a * suc n + k < b * suc n
fewer_rounds a b n k less le = grind arith

module _ (sys : Sys) (preflight : ℕ → M (Unit {0})) (events : M ℤ) (rounds p : ℕ) where
  -- The transfers are cancelled, and those that were cancelled before still are.
  abbrev Cancelled : World → List ℕ → Unit {0} → World → Type 0
  Cancelled w xs u w' =
      (w'.usb ≡ w.usb)
      × (all_cancelled xs w'.out ≡ true)
      × ((ys : List ℕ) → all_cancelled ys w.out ≡ true → all_cancelled ys w'.out ≡ true)

  cancel_all-Cancelled :
      (xs : List ℕ) (w : World)
      → Ensures (Cancelled w xs) (cancel_all sys preflight events rounds xs w)
  unfolding cancel_all
  cancel_all-Cancelled [] w = (refl, refl, λ ys h. h)
  cancel_all-Cancelled (x ∷ xs) w =
      Ensures-mono (Cancelled sent xs) (Cancelled w (x ∷ xs))
        (cancel_all sys preflight events rounds xs sent) (cancel_all-Cancelled xs sent)
        (λ u w' (same, all, later). (
          same,
          both _ _ (left_true _ true (later (x ∷ []) first)) all,
          λ ys h. later ys (all_cancelled-later ys (cancelled x) w.out h),
        ))
    where
      sent : World
      sent = record w { out = cancelled x ∷ w.out }

      first : all_cancelled (x ∷ []) sent.out ≡ true
      first = rw (eq_self x) refl

  module _ (delay : World → ℕ) (longest : ℕ) (progress : Progress p events delay)
      (bounded : (w : World) → delay w ≤ longest) where
    abbrev Live : Unit {0} → World → Type 0
    Live u w = (d : UsbDevice) × (w.usb p ≡ some d)

    -- The rounds that so many transfers and such a delay take at most.
    abbrev needed : ℕ → ℕ → ℕ
    needed n later = n * suc longest + later

    nearer :
        (n n' k k' : ℕ)
        → k' ≤ longest
        → (n' < n) ⊎ ((n' ≡ n) × (k' < k))
        → needed n' k' < needed n k
    nearer n n' k k' le (inl less) = omega (arith, fewer_rounds n' n longest k' less le)
    nearer n n' k k' le (inr (same, less)) = rw same (omega (arith, less))

    wait_closed-Live :
        (fuel : ℕ) (d : UsbDevice) (w : World)
        → w.usb p ≡ some d
        → AllCancelled d w
        → needed (pending d) (delay w) < fuel
        → Ensures Live (wait_closed sys preflight events rounds fuel p w)
    unfolding wait_closed
    wait_closed-Live zero d w at all h = absurd (omega arith)
    wait_closed-Live (suc fuel) d w at all h =
        rw (at, ◌>>=◌)
          (elim (Bool-cases (is_idle sys preflight events rounds d)) [
            | inl idle ↦ rw idle (d, at)
            | inr busy ↦ rw busy (
                Ensures-bind events _
                  (λ r w'.
                    (d' : UsbDevice) × (w'.usb p ≡ some d')
                    × AllCancelled d' w'
                    × ((pending d' < pending d)
                        ⊎ ((pending d' ≡ pending d) × (delay w' < delay w))))
                  Live w (progress w d at all (ground arith))
                  (λ r w' (d', at', all', step). elim (Bool-cases (is_neg r)) [
                    | inl e ↦ rw e (d', at')
                    | inr e ↦ rw e (
                        wait_closed-Live fuel d' w' at' all' (
                          omega (
                            arith,
                            h,
                            nearer (pending d) (pending d') (delay w) (delay w') (bounded w') step,
                          )))
                  ]))
          ])

    -- The device is freed; last, its interface was released and then its handle closed.
    abbrev pub Closed : ℕ → World → Type 0
    Closed handle w =
        (w.usb p ≡ none)
        × ((interface : ℕ) × (before : List Out) × (w.out
              ≡ handle_closed handle ∷ interface_released handle interface ∷ before))

    pub usb_disconnect-Closed :
        (d : UsbDevice) (handle : ℕ) (w : World)
        → w.usb p ≡ some d
        → d.handle ≡ some handle
        → suc (pending d) * suc longest ≤ rounds
        → Ensures (λ u w'. Closed handle w') (usb_disconnect sys preflight events rounds p w)
    unfolding usb_disconnect close_device
    usb_disconnect-Closed d handle w at opened enough =
        rw (at, ◌>>=◌, opened, at, ◌>>=◌)
          (Ensures-bind (cancel_all sys preflight events rounds d.rx_xfers) _
            (Cancelled w d.rx_xfers) (λ u w'. Closed handle w') w
            (cancel_all-Cancelled d.rx_xfers w)
            (λ u w1 (same, rx, later).
              Ensures-bind (cancel_all sys preflight events rounds d.tx_xfers) _
                (Cancelled w1 d.tx_xfers) (λ u w'. Closed handle w') w1
                (cancel_all-Cancelled d.tx_xfers w1)
                (λ v w2 (same', tx, later').
                  Ensures-bind (wait_closed sys preflight events rounds rounds p) _ Live
                    (λ u w'. Closed handle w') w2
                    (wait_closed-Live rounds d w2 (rw (same', same) at) (later' d.rx_xfers rx, tx)
                      (omega (
                        arith,
                        bounded w2,
                        fewer_rounds (pending d) (suc (pending d)) longest (delay w2) (omega arith)
                            (bounded w2),
                        enough,
                      )))
                    (λ u w3 k.
                      rw (k.1, ◌>>=◌) (update_self w3.usb p none, (k.0.interface, w3.out, refl))))))
