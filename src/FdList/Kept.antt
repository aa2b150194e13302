-- ===== src/FdList/Kept.antt =====
-- The entries of a list of descriptors stay within its arrays.
use usbmuxd.Prelude.{
  List, [], ap, append-nil, append_assoc, arith, length, length-append, lt→ltb, refl, sym, ℕ, ◌++◌,
  ◌+◌, ◌<◌, ◌∙◌, ◌∷◌, ◌≡◌, ◌≤◌,
}
use usbmuxd.World.{Ensures, Ensures-bind, Ensures-mono, World}
use usbmuxd.FdList.{
  Entry, FdList, FdOwner, fdlist_add, fdlist_add_all, fdlist_create, fdlist_reset, grown,
}

-- As many entries as the count says, within the capacity, which is not 0.
pub record WellFormed (l : FdList) : Type 0 where
  pub counted : length l.entries ≡ l.count
  pub fits : l.count ≤ l.capacity
  pub room : 0 < l.capacity

pub fdlist_create-WellFormed : WellFormed fdlist_create
fdlist_create-WellFormed = record { counted = refl; fits = omega arith; room = omega arith }

pub fdlist_reset-WellFormed : (l : FdList) → WellFormed l → WellFormed (fdlist_reset l)
fdlist_reset-WellFormed l h = record { counted = refl; fits = omega arith; room = h.room }

-- The entries of one owner.
abbrev pub owned : FdOwner → List (ℕ × ℕ) → List Entry
owned owner [] = []
owned owner ((fd, events) ∷ fds) =
    record { owner = owner; fd = fd; events = events } ∷ owned owner fds

-- The entries behind those of the list, the arrays in order, the store as it was.
abbrev pub Extends : FdList → List Entry → World → FdList → World → Type 0
Extends l es w l' w' = WellFormed l' × (l'.entries ≡ l.entries ++ es) × (w' ≡ w)

count_lt : (l : FdList) → WellFormed l → l.count < grown l
count_lt l h = let a = h.fits in let b = h.room in ground arith

pub fdlist_add-Extends :
    (l : FdList) (owner : FdOwner) (fd events : ℕ) (w : World)
    → WellFormed l
    → Ensures (Extends l (owned owner ((fd, events) ∷ [])) w) (fdlist_add l owner fd events w)
unfolding fdlist_add
fdlist_add-Extends l owner fd events w h = rw (lt→ltb l.count (grown l) (count_lt l h)) (
  record {
    counted = length-append l.entries _ ∙ ap (λ n. n + 1) h.counted;
    fits = omega (arith, count_lt l h);
    room = omega (arith, count_lt l h);
  },
  refl,
  refl,
)

pub fdlist_add_all-Extends :
    (owner : FdOwner) (fds : List (ℕ × ℕ)) (l : FdList) (w : World)
    → WellFormed l
    → Ensures (Extends l (owned owner fds) w) (fdlist_add_all l owner fds w)
unfolding fdlist_add_all
fdlist_add_all-Extends owner [] l w h = (h, sym (append-nil l.entries), refl)
fdlist_add_all-Extends owner ((fd, events) ∷ fds) l w h =
    Ensures-bind (fdlist_add l owner fd events) _ (Extends l (owned owner ((fd, events) ∷ [])) w)
      (Extends l (owned owner ((fd, events) ∷ fds)) w) w (fdlist_add-Extends l owner fd events w h)
      (λ l' w' k.
        Ensures-mono (Extends l' (owned owner fds) w') _ (fdlist_add_all l' owner fds w')
          (fdlist_add_all-Extends owner fds l' w' k.0)
          (λ l'' w'' m. (
            m.0,
            m.1
                ∙ ap (λ xs. xs ++ owned owner fds) k.1
                ∙ append_assoc l.entries (owned owner ((fd, events) ∷ [])) (owned owner fds),
            m.2 ∙ k.2,
          )))
