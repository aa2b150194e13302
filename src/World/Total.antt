-- ===== src/World/Total.antt =====
-- What a run does: `Ensures P`, it returns, and its result and final store satisfy `P` (total
-- correctness); `Whenever P`, they do so if it returns.
use usbmuxd.Prelude.{Option, arith, ℕ, ◌≡◌, ◌≢◌}
use usbmuxd.World.Store.{M, Outcome, World, fault, hang, ret, update, ◌>>=◌}

abbrev pub Ensures : {A : Type 0} → (A → World → Type 0) → Outcome A → Type 0
Ensures P (ret a w) = P a w
Ensures P fault = ⊥
Ensures P hang = ⊥

abbrev pub Whenever : {A : Type 0} → (A → World → Type 0) → Outcome A → Type 0
Whenever P (ret a w) = P a w
Whenever P fault = Unit {0}
Whenever P hang = Unit {0}

module _ {A B : Type 0} where
  pub Whenever-bind :
      (m : M A) (f : A → M B) (P : A → World → Type 0) (Q : B → World → Type 0) (w : World)
      → Whenever P (m w)
      → ((a : A) (w' : World) → P a w' → Whenever Q (f a w'))
      → Whenever Q ((m >>= f) w)
  Whenever-bind m f P Q w h k = go (m w) h
    where
      go :
          (o : Outcome A)
          → Whenever P o
          → Whenever Q (elim o [ ret a w' ↦ f a w' | fault ↦ fault | hang ↦ hang ])
      go (ret a w') p = k a w' p
      go fault p = tt
      go hang p = tt

  -- A run after which nothing is said of the first part.
  pub Whenever-after :
      (m : M A) (f : A → M B) (Q : B → World → Type 0) (w : World)
      → ((a : A) (w' : World) → Whenever Q (f a w'))
      → Whenever Q ((m >>= f) w)
  Whenever-after m f Q w k = go (m w)
    where
      go : (o : Outcome A) → Whenever Q (elim o [ ret a w' ↦ f a w' | fault ↦ fault | hang ↦ hang ])
      go (ret a w') = k a w'
      go fault = tt
      go hang = tt

module _ {A B : Type 0} where
  -- The rule for `m >>= f`.
  pub Ensures-bind :
      (m : M A) (f : A → M B) (P : A → World → Type 0) (Q : B → World → Type 0) (w : World)
      → Ensures P (m w)
      → ((a : A) (w' : World) → P a w' → Ensures Q (f a w'))
      → Ensures Q ((m >>= f) w)
  Ensures-bind m f P Q w h k = go (m w) h
    where
      go :
          (o : Outcome A)
          → Ensures P o
          → Ensures Q (elim o [ ret a w' ↦ f a w' | fault ↦ fault | hang ↦ hang ])
      go (ret a w') p = k a w' p
      go fault p = absurd p
      go hang p = absurd p

module _ {A B : Type 0} where
  -- A run that returns, and behind which memory is touched that may not be.
  pub Ensures-fault :
      (m : M A) (f : A → M B) (P : A → World → Type 0) (w : World)
      → Ensures P (m w)
      → ((a : A) (w' : World) → P a w' → f a w' ≡ fault)
      → (m >>= f) w ≡ fault
  Ensures-fault m f P w h k = go (m w) h
    where
      go :
          (o : Outcome A)
          → Ensures P o
          → (elim o as (λ _. Outcome B) [ ret a w' ↦ f a w' | fault ↦ fault | hang ↦ hang ]) ≡ fault
      go (ret a w') p = k a w' p
      go fault p = absurd p
      go hang p = absurd p

module _ {A : Type 0} where
  pub Ensures→Whenever : (P : A → World → Type 0) (o : Outcome A) → Ensures P o → Whenever P o
  Ensures→Whenever P (ret a w) h = h
  Ensures→Whenever P fault h = absurd h
  Ensures→Whenever P hang h = absurd h

  -- A weaker postcondition.
  pub Ensures-mono :
      (P Q : A → World → Type 0) (o : Outcome A)
      → Ensures P o
      → ((a : A) (w : World) → P a w → Q a w)
      → Ensures Q o
  Ensures-mono P Q (ret a w) h k = k a w h
  Ensures-mono P Q fault h k = absurd h
  Ensures-mono P Q hang h k = absurd h

module _ {A : Type 0} where
  pub update_self : (f : ℕ → Option A) (p : ℕ) (v : Option A) → update f p v p ≡ v
  update_self f p v = ground arith

  pub update_ne : (f : ℕ → Option A) (p q : ℕ) (v : Option A) → p ≢ q → update f p v q ≡ f q
  update_ne f p q v ne = ground arith
