-- ===== src/Usb/Transfer/Packets.antt =====
-- What `usb_send` of src/usb.c puts on the bus.
use usbmuxd.Prelude.{
  Bool-cases, List, [], ap, arith, false, if◌then◌else◌, inl, inr, is_neg, length, pos, refl, some,
  true, ℕ, ℤ, ◌%◌, ◌==◌, ◌∙◌, ◌∷◌, ◌≡◌, ◌≢◌, ◌⊎◌,
}
use usbmuxd.World.{
  Ensures, Ensures-bind, Ensures-mono, Out, Sys, World, crash, load_usb, packet, pure, update_self,
  ◌>>=◌,
}
use usbmuxd.Usb.State.{UsbDevice}
use usbmuxd.Usb.Transfer.{submit_tx, usb_send}

-- What a call of `usb_send` did to the trace: nothing if the first transfer was refused, with a
-- negative result; else the packet went out. A packet that fills whole USB packets is followed by
-- one without bytes, unless that transfer was refused, and then the result is negative.
pub data Transferred (p : ℕ) (buf : List ℕ) (size : ℕ) (before : List Out) (r : ℤ) (w' : World)
    : Type 0 where
  refused : is_neg r ≡ true → w'.out ≡ before → Transferred p buf size before r w'
  alone :
      length buf % size ≢ 0
      → r ≡ pos 0
      → w'.out ≡ packet p buf ∷ before
      → Transferred p buf size before r w'
  followed :
      length buf % size ≡ 0
      → r ≡ pos 0
      → w'.out ≡ packet p [] ∷ packet p buf ∷ before
      → Transferred p buf size before r w'
  cut_short :
      length buf % size ≡ 0
      → is_neg r ≡ true
      → w'.out ≡ packet p buf ∷ before
      → Transferred p buf size before r w'

-- What no transfer changes.
pub record SameObjects (w w' : World) : Type 0 where
  pub dev : w'.dev ≡ w.dev
  pub conn : w'.conn ≡ w.conn
  pub client : w'.client ≡ w.client
  pub device_list : w'.device_list ≡ w.device_list
  pub client_list : w'.client_list ≡ w.client_list

-- An open device whose packet size is known.
abbrev pub Ready : World → ℕ → Type 0
Ready w p = (u : UsbDevice) × (w.usb p ≡ some u) × (u.max_packet_size ≢ 0)

pub SameObjects-trans : {w v x : World} → SameObjects w v → SameObjects v x → SameObjects w x
SameObjects-trans a b = record {
  dev = b.dev ∙ a.dev;
  conn = b.conn ∙ a.conn;
  client = b.client ∙ a.client;
  device_list = b.device_list ∙ a.device_list;
  client_list = b.client_list ∙ a.client_list;
}

nonzero : (n : ℕ) → n ≢ 0 → (n == 0) ≡ false
nonzero n ne = ground arith

module _ (sys : Sys) where
  submit_tx-Ensures :
      (p : ℕ) (buf : List ℕ) (w : World) (u : UsbDevice)
      → w.usb p ≡ some u
      → Ensures
          (λ r w'.
            SameObjects w w'
            × ((u' : UsbDevice) × (w'.usb p ≡ some u') × (u'.max_packet_size ≡ u.max_packet_size))
            × (((is_neg r ≡ true) × (w'.out ≡ w.out))
                ⊎ ((r ≡ pos 0) × (w'.out ≡ packet p buf ∷ w.out))))
          (submit_tx sys p buf w)
  unfolding submit_tx
  submit_tx-Ensures p buf w u e = elim (Bool-cases (is_neg (sys.submit w.calls))) [
    | inl bad ↦ rw bad (
      record { dev = refl; conn = refl; client = refl; device_list = refl; client_list = refl },
      (u, e, refl),
      inl (bad, refl),
    )
    | inr good ↦
        rw (good, e, ◌>>=◌)
          (
            record {
              dev = refl;
              conn = refl;
              client = refl;
              device_list = refl;
              client_list = refl;
            },
            (
              record u { tx_xfers = sys.collection_add u.tx_xfers w.fresh },
              update_self w.usb p _,
              refl,
            ),
            inr (refl, refl),
          )
  ]

-- A packet of the bytes `buf` to the device `u` at `p`, from the store `w` on.
module _ (sys : Sys) (p : ℕ) (buf : List ℕ) (w : World) (u : UsbDevice)
    (ne : u.max_packet_size ≢ 0) where
  -- What holds after the transfers.
  abbrev Done : ℤ → World → Type 0
  Done r v = SameObjects w v × Ready v p × Transferred p buf u.max_packet_size w.out r v

  -- A transfer of some bytes from `v` on, to `u'` in the place of `u`.
  abbrev Step : List ℕ → World → UsbDevice → ℤ → World → Type 0
  Step bytes v u' r v' =
      SameObjects v v'
      × ((x : UsbDevice) × (v'.usb p ≡ some x) × (x.max_packet_size ≡ u'.max_packet_size))
      × (((is_neg r ≡ true) × (v'.out ≡ v.out)) ⊎ ((r ≡ pos 0) × (v'.out ≡ packet p bytes ∷ v.out)))

  zlp_sent :
      (w' v : World) (u' : UsbDevice) (r : ℤ)
      → (length buf % u.max_packet_size == 0) ≡ true
      → u'.max_packet_size ≡ u.max_packet_size
      → SameObjects w w'
      → w'.out ≡ packet p buf ∷ w.out
      → Step [] w' u' r v
      → Done r v
  zlp_sent w' v u' r full size same out (more, (x, ex, sx), inl (neg, o)) = (
    SameObjects-trans same more,
    (x, ex, rw (sx ∙ size) ne),
    cut_short (ground arith) neg (o ∙ out),
  )
  zlp_sent w' v u' r full size same out (more, (x, ex, sx), inr (z, o)) = (
    SameObjects-trans same more,
    (x, ex, rw (sx ∙ size) ne),
    followed (ground arith) z (o ∙ ap (◌∷◌ (packet p [])) out),
  )

  -- After the packet itself: the packet without bytes, where it is wanted.
  zlp :
      (w' : World) (u' : UsbDevice)
      → w'.usb p ≡ some u'
      → u'.max_packet_size ≡ u.max_packet_size
      → SameObjects w w'
      → w'.out ≡ packet p buf ∷ w.out
      → Ensures Done
          ((if length buf % u.max_packet_size == 0 then submit_tx sys p [] else pure (pos 0)) w')
  zlp w' u' e size same out = elim (Bool-cases (length buf % u.max_packet_size == 0)) [
    | inl full ↦ rw full (
        Ensures-mono _ _ _ (submit_tx-Ensures sys p [] w' u' e)
          (λ r v. zlp_sent w' v u' r full size same out))
    | inr part ↦ rw part (same, (u', e, rw size ne), alone (ground arith) refl out)
  ]

  after_packet :
      (a : ℤ) (w' : World)
      → Step buf w u a w'
      → Ensures Done (
          (if is_neg a then pure a else (do
            d ← load_usb p
            if d.max_packet_size == 0
                then crash
                else if length buf % d.max_packet_size == 0
                then submit_tx sys p []
                else pure (pos 0)))
            w')
  after_packet a w' (same, (u', e, size), inl (neg, o)) =
      rw neg (same, (u', e, rw size ne), refused neg o)
  after_packet a w' (same, (u', e, size), inr (z, o)) =
      rw (ap is_neg z, e, ◌>>=◌, size, nonzero u.max_packet_size ne) (zlp w' u' e size same o)

-- On an open device whose packet size is known `usb_send` returns and does one of the four
-- things of `Transferred`. The device stays ready; devices, connections, clients and the two
-- collections stay as they are.
pub usb_send-Transferred :
    (sys : Sys) (p : ℕ) (buf : List ℕ) (w : World) (u : UsbDevice)
    → w.usb p ≡ some u
    → u.max_packet_size ≢ 0
    → Ensures
        (λ r w'. SameObjects w w' × Ready w' p × Transferred p buf u.max_packet_size w.out r w')
        (usb_send sys p buf w)
unfolding usb_send
usb_send-Transferred sys p buf w u e ne =
    Ensures-bind (submit_tx sys p buf) _ _ _ w (submit_tx-Ensures sys p buf w u e)
      (after_packet sys p buf w u ne)
