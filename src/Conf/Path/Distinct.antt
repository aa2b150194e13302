-- ===== src/Conf/Path/Distinct.antt =====
-- Which paths of src/conf.c are the same text, and that `dirname` comes to an end.
use usbmuxd.Prelude.{
  Bool-cases, List, [], ap, arith, drop, drop-length_append, eq_bytes, eq_self, false, inl, inr,
  length, length-append, refl, sym, take, take-length_append, true, ℕ, ◌++◌, ◌+◌, ◌<◌, ◌∙◌, ◌∷◌,
  ◌≡◌, ◌≢◌, ◌≤◌, ◌⊎◌,
}
use usbmuxd.Plist.{codes}
use usbmuxd.Conf.Path.{
  dir_sep, dirname, dot, entry_path, parent_in, parent_of, reverse_onto, root_or_text, skip_name,
  skip_seps,
}

pub eq_bytes_self : (a : List ℕ) → eq_bytes a a ≡ true
unfolding eq_bytes
eq_bytes_self [] = refl
eq_bytes_self (x ∷ xs) = rw (eq_self x, eq_bytes_self xs) refl

pub eq_bytes→≡ : (a b : List ℕ) → eq_bytes a b ≡ true → a ≡ b
unfolding eq_bytes
eq_bytes→≡ [] [] h = refl
eq_bytes→≡ [] (y ∷ ys) h = cc
eq_bytes→≡ (x ∷ xs) [] h = cc
eq_bytes→≡ (x ∷ xs) (y ∷ ys) h = ground (arith, eq_bytes→≡ xs ys)

pub eq_bytes_ne : (a b : List ℕ) → a ≢ b → eq_bytes a b ≡ false
eq_bytes_ne a b ne = elim (Bool-cases (eq_bytes a b)) [
  | inl e ↦ absurd (ne (eq_bytes→≡ a b e))
  | inr e ↦ e
]

pub ne_of_eq_bytes : (a b : List ℕ) → eq_bytes a b ≡ false → a ≢ b
ne_of_eq_bytes a b h e = let self : eq_bytes a b ≡ true = rw⁻¹ e (eq_bytes_self a) in cc

module _ {ℓ} {A : Type ℓ} where
  append_cancel : (xs ys zs : List A) → xs ++ zs ≡ ys ++ zs → xs ≡ ys
  append_cancel xs ys zs e =
      sym (take-length_append xs zs)
      ∙ ap (take (length xs)) e
      ∙ ap (λ n. take n (ys ++ zs)) same
      ∙ take-length_append ys zs
    where
      same : length xs ≡ length ys
      same = omega (arith, length-append xs zs, length-append ys zs, ap length e)

  append_cancel_left : (xs ys zs : List A) → xs ++ ys ≡ xs ++ zs → ys ≡ zs
  append_cancel_left xs ys zs e =
      sym (drop-length_append xs ys) ∙ ap (drop (length xs)) e ∙ drop-length_append xs zs

-- The names of two entries of one directory are the same where their paths are.
pub entry_path_inj : (dir a b : List ℕ) → entry_path dir a ≡ entry_path dir b → a ≡ b
unfolding entry_path
entry_path_inj dir a b e = append_cancel a b (codes ".plist") (
    ap (drop 1) (
      append_cancel_left dir (dir_sep ∷ (a ++ codes ".plist")) (dir_sep ∷ (b ++ codes ".plist")) e))

-- No entry is a path of one byte.
pub entry_path_long : (dir a : List ℕ) (x : ℕ) → (x ∷ []) ≢ entry_path dir a
unfolding entry_path
entry_path_long dir a x e = omega (
  arith,
  ap length e,
  length-append dir (dir_sep ∷ (a ++ codes ".plist")),
  length-append a (codes ".plist"),
)

length-reverse_onto : (xs acc : List ℕ) → length (reverse_onto xs acc) ≡ length xs + length acc
unfolding reverse_onto
length-reverse_onto [] acc = omega arith
length-reverse_onto (x ∷ xs) acc = omega (arith, length-reverse_onto xs (x ∷ acc))

length-skip_seps : (xs : List ℕ) → length (skip_seps xs) ≤ length xs
unfolding skip_seps
length-skip_seps [] = omega arith
length-skip_seps (x ∷ xs) = ground (arith, length-skip_seps xs)

length-skip_name : (xs : List ℕ) → length (skip_name xs) ≤ length xs
unfolding skip_name
length-skip_name [] = omega arith
length-skip_name (x ∷ xs) = ground (arith, length-skip_name xs)

-- Where `dirname` leads to from a path of `n` bytes.
abbrev pub IsUp : ℕ → List ℕ → Type 0
IsUp n q = (q ≡ dot ∷ []) ⊎ ((q ≡ dir_sep ∷ []) ⊎ (length q < n))

root_or_text-IsUp : (n : ℕ) (xs : List ℕ) → length xs < n → IsUp n (root_or_text xs)
root_or_text-IsUp n [] h = inr (inl refl)
root_or_text-IsUp n (x ∷ xs) h = inr (inr (omega (arith, length-reverse_onto (x ∷ xs) [])))

parent_of-IsUp : (n : ℕ) (xs : List ℕ) → length xs < n → IsUp n (parent_of xs)
parent_of-IsUp n [] h = inl refl
parent_of-IsUp n (x ∷ xs) h =
    root_or_text-IsUp n (skip_seps xs) (omega (arith, length-skip_seps xs))

parent_in-IsUp : (n : ℕ) (whole xs : List ℕ) → length xs ≤ n → IsUp n (parent_in whole xs)
parent_in-IsUp n [] [] h = inl refl
parent_in-IsUp n (w ∷ ws) [] h = inr (inl refl)
parent_in-IsUp n [] (y ∷ ys) h =
    parent_of-IsUp n (skip_name ys) (omega (arith, length-skip_name ys))
parent_in-IsUp n (w ∷ ws) (y ∷ ys) h =
    parent_of-IsUp n (skip_name ys) (omega (arith, length-skip_name ys))

pub dirname-IsUp : (p : List ℕ) → IsUp (length p) (dirname p)
unfolding dirname
dirname-IsUp p =
    parent_in-IsUp (length p) (reverse_onto p []) (skip_seps (reverse_onto p []))
      (omega (arith, length-skip_seps (reverse_onto p []), length-reverse_onto p []))
