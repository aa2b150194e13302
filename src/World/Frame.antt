-- ===== src/World/Frame.antt =====
-- Invariants of a run, as rules for `m >>= f`: `Keeps`, the invariant holds again if the run
-- returns; `Returns`, it returns and the invariant holds again; `Halts`, it is in no loop for ever.
use usbmuxd.World.Store.{M, Outcome, World, fault, hang, ret, ◌>>=◌}
use usbmuxd.World.Total.{Ensures, Ensures-bind, Whenever, Whenever-bind}

abbrev pub Ends : {A : Type 0} → (A → World → Type 0) → Outcome A → Type 0
Ends P (ret a w) = P a w
Ends P fault = Unit {0}
Ends P hang = ⊥

module _ {A B : Type 0} where
  pub Ends-bind :
      (m : M A) (f : A → M B) (P : A → World → Type 0) (Q : B → World → Type 0) (w : World)
      → Ends P (m w)
      → ((a : A) (w' : World) → P a w' → Ends Q (f a w'))
      → Ends Q ((m >>= f) w)
  Ends-bind m f P Q w h k = go (m w) h
    where
      go :
          (o : Outcome A)
          → Ends P o
          → Ends Q (elim o [ ret a w' ↦ f a w' | fault ↦ fault | hang ↦ hang ])
      go (ret a w') p = k a w' p
      go fault p = tt
      go hang p = absurd p

module _ {A : Type 0} where
  pub Ensures→Ends :
      (P Q : A → World → Type 0) (o : Outcome A)
      → Ensures P o
      → ((a : A) (w : World) → P a w → Q a w)
      → Ends Q o
  Ensures→Ends P Q (ret a w) h k = k a w h
  Ensures→Ends P Q fault h k = tt
  Ensures→Ends P Q hang h k = absurd h

  -- Total correctness together with what holds if the run returns.
  pub Ensures-and :
      (P Q : A → World → Type 0) (o : Outcome A)
      → Ensures P o
      → Whenever Q o
      → Ensures (λ a w. P a w × Q a w) o
  Ensures-and P Q (ret a w) h k = (h, k)
  Ensures-and P Q fault h k = h
  Ensures-and P Q hang h k = h

  -- Total correctness together with what holds if the run returns, of a run in no loop for ever.
  pub Ensures-Ends :
      (P Q : A → World → Type 0) (o : Outcome A)
      → Ensures P o
      → Ends Q o
      → Ends (λ a w. P a w × Q a w) o
  Ensures-Ends P Q (ret a w) h k = (h, k)
  Ensures-Ends P Q fault h k = tt
  Ensures-Ends P Q hang h k = k

module _ (I : World → Type 0) where
  abbrev pub Keeps : {A : Type 0} → M A → Type 0
  Keeps m = (w : World) → I w → Whenever (λ a w'. I w') (m w)

  abbrev pub Returns : {A : Type 0} → M A → Type 0
  Returns m = (w : World) → I w → Ensures (λ a w'. I w') (m w)

  abbrev pub Halts : {A : Type 0} → M A → Type 0
  Halts m = (w : World) → I w → Ends (λ a w'. I w') (m w)

module _ {A B : Type 0} (I : World → Type 0) (m : M A) (f : A → M B) where
  pub Keeps-bind : Keeps I m → ((a : A) → Keeps I (f a)) → Keeps I (m >>= f)
  Keeps-bind km kf w i =
      Whenever-bind m f (λ a w'. I w') (λ b w'. I w') w (km w i) (λ a w' i'. kf a w' i')

  pub Returns-bind : Returns I m → ((a : A) → Returns I (f a)) → Returns I (m >>= f)
  Returns-bind km kf w i =
      Ensures-bind m f (λ a w'. I w') (λ b w'. I w') w (km w i) (λ a w' i'. kf a w' i')

  pub Halts-bind : Halts I m → ((a : A) → Halts I (f a)) → Halts I (m >>= f)
  Halts-bind km kf w i =
      Ends-bind m f (λ a w'. I w') (λ b w'. I w') w (km w i) (λ a w' i'. kf a w' i')
