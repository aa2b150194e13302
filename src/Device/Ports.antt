-- ===== src/Device/Ports.antt =====
-- The two searches for an unused number in src/device.c: `find_sport` over the source ports of a
-- device, `get_next_device_id` over the ids. Both count a counter of `m` values up, one value for
-- each round of `while(1)`, until no element of the collection has it.
use native.Mathlib.Nat.{mod-eq_of_lt, mod_self}
use native.Mathlib.Decide.{dec_lt}
use usbmuxd.Prelude.{
  Bool-cases, List, Option, Option-cases, arith, erase, false, if◌then◌else◌, inl, inr, leb, length,
  length-erase, mem, mem-erase_ne, none, refl, some, suc, sym, zero, ℕ, ◌%◌, ◌+◌, ◌-◌, ◌<◌, ◌∙◌,
  ◌≡◌, ◌≢◌, ◌≤◌, ◌⊎◌,
}

-- The loop: the value at which it returns, `none` when the fuel is spent.
pub first_free : ℕ → ℕ → ℕ → List ℕ → Option ℕ
first_free m zero next used = none
first_free m (suc fuel) next used =
    let more = first_free m fuel ((next + 1) % m) used in if mem used next then more else some next

-- The steps from `q` up to `p`, going round at `m`.
abbrev dist : ℕ → ℕ → ℕ → ℕ
dist m q p = if leb q p then p - q else p + m - q

mod_step :
    (m q : ℕ) → q < m → (((q + 1) % m ≡ q + 1) × (q + 1 < m)) ⊎ (((q + 1) % m ≡ 0) × (q + 1 ≡ m))
mod_step m q h = elim (dec_lt (q + 1) m) [
  | yes lt ↦ inl (mod-eq_of_lt lt, lt)
  | no ge ↦ let last : q + 1 ≡ m = omega arith in inr (rw last (mod_self m), last)
]

next_lt : (m q : ℕ) → q < m → (q + 1) % m < m
next_lt m q h = ground (arith, mod_step m q h)

dist_step : (m q p : ℕ) → q < m → p < m → q ≢ p → dist m q p ≡ suc (dist m ((q + 1) % m) p)
dist_step m q p hq hp ne = ground (arith, mod_step m q hq)

dist_next_self : (m p : ℕ) → p < m → suc (dist m ((p + 1) % m) p) ≡ m
dist_next_self m p h = ground (arith, mod_step m p h)

-- A value that the loop does not reach may be taken out of the list.
first_free-erase :
    (m p n q : ℕ) (used : List ℕ)
    → q < m
    → p < m
    → n ≤ dist m q p
    → first_free m n q (erase used p) ≡ first_free m n q used
unfolding first_free
first_free-erase m p zero q used hq hp h = refl
first_free-erase m p (suc n) q used hq hp h = rw (
  mem-erase_ne used p q (λ e. ne (sym e)),
  first_free-erase m p n ((q + 1) % m) used (next_lt m q hq) hp
      (omega (arith, dist_step m q p hq hp ne)),
)
  where
    ne : q ≢ p
    ne e = ground arith

-- Pigeonhole: the loop runs on only as long as there are elements.
first_free-none :
    (m n p : ℕ) (used : List ℕ) → p < m → n ≤ m → first_free m n p used ≡ none → n ≤ length used
unfolding first_free
first_free-none m zero p used hp hn e = omega arith
first_free-none m (suc n) p used hp hn e = elim (Bool-cases (mem used p)) [
  | inr free ↦ ground arith
  | inl hit ↦
      let more : first_free m n ((p + 1) % m) used ≡ none = ground arith in
      let room : n ≤ dist m ((p + 1) % m) p = omega (arith, dist_next_self m p hp) in
      let rest =
        first_free-none m n ((p + 1) % m) (erase used p) (next_lt m p hp) (omega arith)
          (first_free-erase m p n ((p + 1) % m) used (next_lt m p hp) hp room ∙ more) in
      omega (arith, length-erase used p hit, rest)
]

-- What the loop returns is below the modulus, and no element has it.
pub first_free_sound :
    (m fuel next : ℕ) (used : List ℕ) {v : ℕ}
    → next < m
    → first_free m fuel next used ≡ some v
    → (mem used v ≡ false) × (v < m)
unfolding first_free
first_free_sound m zero next used h e = cc
first_free_sound m (suc fuel) next used h e = elim (Bool-cases (mem used next)) [
  | inl hit ↦ first_free_sound m fuel ((next + 1) % m) used (next_lt m next h) (ground arith)
  | inr free ↦ ground arith
]

-- A value that no element has is returned at once.
pub first_free_unused :
    (m fuel next : ℕ) (used : List ℕ)
    → mem used next ≡ false
    → first_free m (suc fuel) next used ≡ some next
unfolding first_free
first_free_unused m fuel next used h = rw h refl

-- With fewer elements than values, one round more than there are elements is enough.
pub first_free_total :
    (m next : ℕ) (used : List ℕ)
    → next < m
    → length used < m
    → (v : ℕ) × (first_free m (suc (length used)) next used ≡ some v)
first_free_total m next used h room =
    elim (Option-cases (first_free m (suc (length used)) next used)) [
      | inl e ↦ absurd (omega (arith, first_free-none m (suc (length used)) next used h room e))
      | inr found ↦ found
    ]
