-- ===== src/Usb/Setup/Apart.antt =====
-- The listed USB devices of src/usb.c stand at places of their own: the invariant, and what a change
-- of one device and a new device do to it.
use usbmuxd.Usb.Setup.Search.{some_inj}
use usbmuxd.Usb.Setup.{is_at}
use usbmuxd.Prelude.{
  Bool-cases, List, Option, ap, arith, false, inl, inr, refl, some, suc, sym, true, ℕ, ◌<◌, ◌==◌,
  ◌∙◌, ◌≡◌, ◌≢◌, ◌⊎◌,
}
use usbmuxd.World.{Documented, Sys, World, count, update, update_ne, update_self}
use usbmuxd.Usb.State.{UsbDevice}

-- The listed devices are live objects at addresses that were handed out, each at a place of its own.
pub record Places (w : World) : Type 0 where
  pub live : (p : ℕ) → 0 < count p w.usb_list → (d : UsbDevice) × (w.usb p ≡ some d)
  pub young : (p : ℕ) → 0 < count p w.usb_list → p < w.fresh
  pub apart :
      (p q : ℕ) (d e : UsbDevice)
      → 0 < count p w.usb_list
      → 0 < count q w.usb_list
      → w.usb p ≡ some d
      → w.usb q ≡ some e
      → d.bus ≡ e.bus
      → d.address ≡ e.address
      → p ≡ q

pub called-Places : (n : ℕ) (w : World) → Places w → Places (record w { calls = n })
called-Places n w h = record { live = h.live; young = h.young; apart = h.apart }

-- What stands at an address after a change of one object.
at_update :
    (f : ℕ → Option UsbDevice) (p q : ℕ) (v : UsbDevice) (d : UsbDevice)
    → update f p (some v) q ≡ some d
    → ((q ≡ p) × (d ≡ v)) ⊎ ((q ≢ p) × (f q ≡ some d))
at_update f p q v d e = elim (Bool-cases (p == q)) [
  | inl s ↦
      let same : p ≡ q = ground arith in
      inl (
        sym same,
        some_inj d v (sym e ∙ ap (update f p (some v)) (sym same) ∙ update_self f p (some v)),
      )
  | inr n ↦
      let other : p ≢ q = (λ s. ground arith) in
      inr (λ s. other (sym s), sym (update_ne f p q (some v) other) ∙ e)
]

is_at-true :
    (bus address : ℕ) (d : UsbDevice)
    → d.bus ≡ bus
    → d.address ≡ address
    → is_at bus address d ≡ true
is_at-true bus address d b a = ground arith

-- An object that stays at its place.
pub store-Places :
    (p : ℕ) (d v : UsbDevice) (w : World)
    → w.usb p ≡ some d
    → v.bus ≡ d.bus
    → v.address ≡ d.address
    → Places w
    → Places (record w { usb = update w.usb p (some v) })
store-Places p d v w at bus address h = record {
  live = λ q l. elim (Bool-cases (p == q)) [
    | inl s ↦ let same : p ≡ q = ground arith in (v, rw⁻¹ same (update_self w.usb p (some v)))
    | inr n ↦
        let other : p ≢ q = (λ s. ground arith) in
        ((h.live q l).0, update_ne w.usb p q (some v) other ∙ (h.live q l).1)
  ];
  young = h.young;
  apart = λ q r a b lq lr aq ar eb ea.
      let old_q = before q a aq in
      let old_r = before r b ar in
      h.apart q r old_q.0 old_r.0 lq lr old_q.1 old_r.1 (old_q.2 ∙ eb ∙ sym old_r.2)
        (old_q.3 ∙ ea ∙ sym old_r.3);
}
  where
    before :
        (q : ℕ) (a : UsbDevice)
        → update w.usb p (some v) q ≡ some a
        → (o : UsbDevice) × (w.usb q ≡ some o) × (o.bus ≡ a.bus) × (o.address ≡ a.address)
    before q a e = elim (at_update w.usb p q v a e) [
      | inl s ↦ (
        d,
        ap w.usb s.0 ∙ at,
        sym bus ∙ ap (λ x. x.bus) (sym s.1),
        sym address ∙ ap (λ x. x.address) (sym s.1),
      )
      | inr n ↦ (a, n.1, refl, refl)
    ]

module _ (sys : Sys) (documented : Documented sys) where
  listed_new :
      (xs : List ℕ) (x q : ℕ) → 0 < count q (sys.collection_add xs x) → (x ≡ q) ⊎ (0 < count q xs)
  listed_new xs x q h = let c = documented.count-add xs x q in ground arith

  -- A new object at a place that no listed one has.
  pub add-Places :
      (v : UsbDevice) (w : World)
      → Places w
      → ((q : ℕ) (e : UsbDevice)
          → 0 < count q w.usb_list
          → w.usb q ≡ some e
          → is_at v.bus v.address e ≡ false)
      → Places (record w {
        fresh = suc w.fresh;
        usb = update w.usb w.fresh (some v);
        usb_list = sys.collection_add w.usb_list w.fresh;
      })
  add-Places v w h free = record {
    live = λ q l. elim (listed_new w.usb_list w.fresh q l) [
      | inl s ↦ (v, rw⁻¹ s (update_self w.usb w.fresh (some v)))
      | inr old ↦ (
        (h.live q old).0,
        update_ne w.usb w.fresh q (some v) (not_fresh q old) ∙ (h.live q old).1,
      )
    ];
    young = λ q l. elim (listed_new w.usb_list w.fresh q l) [
      | inl s ↦ omega arith
      | inr old ↦ omega (arith, h.young q old)
    ];
    apart = λ q r a b lq lr aq ar eb ea. elim (listed_new w.usb_list w.fresh q lq) [
      | inl sq ↦ elim (listed_new w.usb_list w.fresh r lr) [
        | inl sr ↦ sym sq ∙ sr
        | inr old ↦ absurd (taken r b a (sym sq) old ar aq (sym eb) (sym ea))
      ]
      | inr oldq ↦ elim (listed_new w.usb_list w.fresh r lr) [
        | inl sr ↦ absurd (taken q a b (sym sr) oldq aq ar eb ea)
        | inr old ↦ h.apart q r a b oldq old (old_at q a oldq aq) (old_at r b old ar) eb ea
      ]
    ];
  }
    where
      not_fresh : (q : ℕ) → 0 < count q w.usb_list → w.fresh ≢ q
      not_fresh q old e = omega (arith, h.young q old)

      old_at :
          (q : ℕ) (a : UsbDevice)
          → 0 < count q w.usb_list
          → update w.usb w.fresh (some v) q ≡ some a
          → w.usb q ≡ some a
      old_at q a old e = sym (update_ne w.usb w.fresh q (some v) (not_fresh q old)) ∙ e

      taken :
          {n : ℕ} (q : ℕ) (a b : UsbDevice)
          → n ≡ w.fresh
          → 0 < count q w.usb_list
          → update w.usb w.fresh (some v) q ≡ some a
          → update w.usb w.fresh (some v) n ≡ some b
          → a.bus ≡ b.bus
          → a.address ≡ b.address
          → ⊥
      taken q a b s old aq an eb ea =
          let new : b ≡ v =
            some_inj b v (
              sym an ∙ ap (update w.usb w.fresh (some v)) s ∙ update_self w.usb w.fresh (some v)) in
          let here =
            is_at-true v.bus v.address a (eb ∙ ap (λ x. x.bus) new)
              (ea ∙ ap (λ x. x.address) new) in
          let clear = free q a old (old_at q a old aq) in cc
