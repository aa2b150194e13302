-- ===== src/Tests/Usb.antt =====
-- The theorems on src/usb.c's devices and on the lists for poll at concrete inputs.
use usbmuxd.Usb.State.{UsbDevice}
use usbmuxd.Usb.Disconnect.{usb_disconnect}
use usbmuxd.Usb.Disconnect.Waiting.{Progress, all_cancelled, usb_disconnect-Closed, was_cancelled}
use usbmuxd.Prelude.{
  Bool, List, [], arith, drop, false, inl, length-drop, negsuc, none, pos, refl, some, suc, sym,
  true, zero, ℕ, ℤ, ◌&&◌, ◌<◌, ◌∙◌, ◌∷◌, ◌≡◌,
}
use usbmuxd.Plist.{codes}
use usbmuxd.World.{
  Ensures, M, Out, Sys, World, count, handle_closed, interface_released, load_usb, pure, store_usb,
  update_self, ◌>>=◌, ◌>>◌,
}
use usbmuxd.Usb.Serial.{decode_serial}
use usbmuxd.Usb.Serial.Decoding.{
  IsText, byte_of, decode_serial-string_descriptor, string_descriptor,
}
use usbmuxd.Usb.Setup.{usb_device_add}
use usbmuxd.Usb.Setup.Apart.{Places}
use usbmuxd.Usb.Setup.Places.{usb_device_add-Places}
use usbmuxd.FdList.{fdlist_create}
use usbmuxd.FdList.Kept.{fdlist_create-WellFormed}
use usbmuxd.MainLoop.{gather_fds}
use usbmuxd.MainLoop.Round.{PollsAll, gather_fds-PollsAll, none_left, one_more}
use usbmuxd.Tests.Fixture.{benign, caller, listener, one_at, plug, start}
use usbmuxd.Tests.Lawful.{benign-Documented}

short-IsText : IsText (codes "AB")
short-IsText zero h = (omega arith, omega arith)
short-IsText (suc zero) h = (omega arith, omega arith)
short-IsText (suc (suc i)) h = absurd (omega arith)

decode_serial-string_descriptor_example :
    decode_serial (byte_of (string_descriptor (codes "AB"))) ≡ codes "AB"
decode_serial-string_descriptor_example =
    decode_serial-string_descriptor (codes "AB") short-IsText (omega arith)

-- A device that refuses every change of its configuration.
abbrev stubborn : Sys
stubborn = record benign { set_configuration = λ n. negsuc 0; get_configuration = λ n. some 1 }

only_one : (p : ℕ) → 0 < count p (1 ∷ []) → 1 ≡ p
only_one p h = ground arith

start-Places : Places start
start-Places = record {
  live = λ p l. (plug, rw⁻¹ (only_one p l) refl);
  young = λ p l. omega (arith, only_one p l);
  apart = λ p q d e lp lq ap aq eb ea. sym (only_one p lp) ∙ only_one q lq;
}

usb_device_add-Places_example : Ensures (λ r w'. Places w') (usb_device_add benign 7 start)
usb_device_add-Places_example = usb_device_add-Places benign benign-Documented 7 start start-Places

-- A device with two transfers, of which each round of events ends the oldest of both kinds.
abbrev busy_plug : UsbDevice
busy_plug = record plug { rx_xfers = 8 ∷ []; tx_xfers = 9 ∷ [] }

abbrev busy : World
busy = record start { usb = one_at 1 busy_plug }

abbrev one_round : M ℤ
one_round = do
  d ← load_usb 1
  store_usb 1 (record d { rx_xfers = drop 1 d.rx_xfers; tx_xfers = drop 1 d.tx_xfers })
  pure (pos 0)

drop-all_cancelled :
    (xs : List ℕ) (out : List Out)
    → all_cancelled xs out ≡ true
    → all_cancelled (drop 1 xs) out ≡ true
drop-all_cancelled [] out h = refl
drop-all_cancelled (x ∷ xs) out h = go (was_cancelled x out) h
  where
    go : (b : Bool) → (b && all_cancelled xs out) ≡ true → all_cancelled xs out ≡ true
    go true k = k
    go false k = absurd cc

one_round-Progress : Progress 1 one_round (λ w. 0)
one_round-Progress w d at all some_left =
    rw (at, ◌>>=◌)
      (
        record d { rx_xfers = drop 1 d.rx_xfers; tx_xfers = drop 1 d.tx_xfers },
        update_self w.usb 1 (some _),
        (drop-all_cancelled d.rx_xfers w.out (all.0), drop-all_cancelled d.tx_xfers w.out (all.1)),
        inl (omega (arith, length-drop 1 d.rx_xfers, length-drop 1 d.tx_xfers)),
      )

abbrev no_preflight_cb : ℕ → M (Unit {0})
no_preflight_cb n = pure tt

usb_disconnect-Closed_example :
    Ensures
      (λ u w'.
        (w'.usb 1 ≡ none)
        × ((interface : ℕ) × (before : List Out) × (w'.out
              ≡ handle_closed 1 ∷ interface_released 1 interface ∷ before)))
      (usb_disconnect benign no_preflight_cb one_round 3 1 busy)
usb_disconnect-Closed_example =
    usb_disconnect-Closed benign no_preflight_cb one_round 3 1 (λ w. 0) 0 one_round-Progress
      (λ w. omega arith) busy_plug 1 busy refl refl (omega arith)

gather_fds-PollsAll_example :
    Ensures
      (PollsAll benign 3 fdlist_create ((10, 4) ∷ (9, 1) ∷ []) 0)
      (gather_fds benign 3 fdlist_create start)
gather_fds-PollsAll_example =
    gather_fds-PollsAll benign 3 fdlist_create ((10, 4) ∷ (9, 1) ∷ []) start
      fdlist_create-WellFormed
      (one_more 4 (5 ∷ []) caller ((9, 1) ∷ []) refl (one_more 5 [] listener [] refl none_left))
