-- ===== src/Conf/Dir/Created.antt =====
-- mkdir_with_parents and config_create_config_dir of src/conf.c come to an end and leave every file
-- as it was.
use usbmuxd.Conf.Dir.{
  config_create_config_dir, config_get_config_dir, initialised, levels, mkdir_with_parents,
}
use usbmuxd.Prelude.{
  Bool, Bool-cases, List, Option, [], ap, arith, eq_bytes, false, if◌then◌else◌, inl, inr, length,
  none, pos, refl, some, suc, true, zero, ℕ, ℤ, ◌<◌, ◌==◌, ◌∙◌, ◌∷◌, ◌≡◌, ◌≢◌, ◌⊎◌,
}
use usbmuxd.World.{Ensures, Ensures-bind, M, Node, Sys, World, directory, pure, put}
use usbmuxd.Conf.Path.{dir_sep, dirname, dot, entry_path}
use usbmuxd.Conf.Path.Distinct.{dirname-IsUp, eq_bytes→≡}
use usbmuxd.Conf.Files.{contents, exists, is_directory, made, mkdir, stat, unless}
use usbmuxd.Conf.Abstract.{Refines, called-Refines, dir_of, dir_set-Refines}

-- A directory at a free path.
directory-contents :
    (f : List ℕ → Option Node) (p q : List ℕ)
    → f p ≡ none
    → contents (put f p (some directory) q) ≡ contents (f q)
directory-contents f p q free = elim (Bool-cases (eq_bytes p q)) [
  | inl e ↦ rw (e) (rw⁻¹ (eq_bytes→≡ p q e) (rw free refl))
  | inr e ↦ rw e refl
]

directory_at :
    (f : List ℕ → Option Node) (p q : List ℕ)
    → f q ≡ some directory
    → put f p (some directory) q ≡ some directory
directory_at f p q h = elim (Bool-cases (eq_bytes p q)) [
  | inl e ↦ rw e refl
  | inr e ↦ rw (e, h) refl
]

-- "/" and ".", where `dirname` stays.
abbrev pub IsTop : List ℕ → Type 0
IsTop p = (p ≡ dot ∷ []) ⊎ (p ≡ dir_sep ∷ [])

module _ (dir : List ℕ) (store : List ℕ → Option (List ℕ)) where
  top_taken : (p : List ℕ) (w : World) → Refines dir store w → IsTop p → w.disk p ≢ none
  top_taken p w r (inl e) free = let at = r.here in cc
  top_taken p w r (inr e) free = let at = r.root in cc

  made_directory-Refines :
      (p : List ℕ) (w : World)
      → w.disk p ≡ none
      → Refines dir store w
      → Refines dir store (record w { disk = put w.disk p (some directory) })
  made_directory-Refines p w free r = record {
    in_dir = r.in_dir;
    root = directory_at w.disk p (dir_sep ∷ []) r.root;
    here = directory_at w.disk p (dot ∷ []) r.here;
    files = λ id. directory-contents w.disk p (entry_path dir id) free ∙ r.files id;
  }

  abbrev AfterMkdir : List ℕ → Option ℕ → World → Type 0
  AfterMkdir p e w = Refines dir store w × (IsTop p → e ≡ some exists)

  made-Refines :
      (p : List ℕ) (node : Option Node) (parent : Bool) (e : Option ℕ) (w : World)
      → Refines dir store w
      → w.disk p ≡ node
      → Ensures (AfterMkdir p) (made p node parent e w)
  made-Refines p (some n) parent e w r at = (r, λ top. refl)
  made-Refines p none false e w r at = (r, λ top. absurd (top_taken p w r top at))
  made-Refines p none true (some n) w r at = (r, λ top. absurd (top_taken p w r top at))
  made-Refines p none true none w r at =
      (made_directory-Refines p w at r, λ top. absurd (top_taken p w r top at))

  -- The directory may be missing afterwards; the result is 0 all the same.
  abbrev pub Done : ℤ → World → Type 0
  Done res w = Refines dir store w × (res ≡ pos 0)

  module _ (sys : Sys) where
    mkdir-Refines :
        (p : List ℕ) (w : World) → Refines dir store w → Ensures (AfterMkdir p) (mkdir sys p w)
    unfolding mkdir
    mkdir-Refines p w r =
        made-Refines p (w.disk p) (is_directory (w.disk (dirname p))) (sys.refused w.calls)
          (record w { calls = suc w.calls }) (called-Refines (suc w.calls) r) refl

    next_level :
        (p : List ℕ) (n : ℕ) → length p < suc n → IsTop (dirname p) ⊎ (length (dirname p) < n)
    next_level p n h = elim (dirname-IsUp p) [
      | inl e ↦ inl (inl e)
      | inr (inl e) ↦ inl (inr e)
      | inr (inr lt) ↦ inr (omega arith)
    ]

    not-IsTop :
        (p : List ℕ) (n : ℕ) → (n == exists) ≡ false → (IsTop p → some n ≡ some exists) → ¬ IsTop p
    not-IsTop p n ne k top = let same : n ≡ exists = (let e = k top in cc) in absurd (ground arith)

    -- One level, given the next.
    level-Done :
        (fuel : ℕ) (p : List ℕ) (w : World)
        → Refines dir store w
        → ((w' : World)
            → ¬ IsTop p
            → Refines dir store w'
            → Ensures Done (mkdir_with_parents sys fuel (dirname p) w'))
        → Ensures Done (mkdir_with_parents sys (suc fuel) p w)
    unfolding mkdir_with_parents
    level-Done fuel p w r next =
        Ensures-bind (mkdir sys p) _ (AfterMkdir p) Done w (mkdir-Refines p w r) after
      where
        after :
            (e : Option ℕ) (w' : World)
            → AfterMkdir p e w'
            → Ensures Done (
                (elim e as (λ _. M ℤ) [
                  | none ↦ pure (pos 0)
                  | some n ↦
                      if n == exists then pure (pos 0) else mkdir_with_parents sys fuel (dirname p)
                ])
                  w')
        after none w' a = (a.0, refl)
        after (some n) w' a = elim (Bool-cases (n == exists)) [
          | inl e ↦ rw e (a.0, refl)
          | inr e ↦ rw e (next w' (not-IsTop p n e a.1) a.0)
        ]

    pub mkdir_with_parents-Done :
        (fuel : ℕ) (p : List ℕ) (w : World)
        → IsTop p ⊎ (length p < fuel)
        → Refines dir store w
        → Ensures Done (mkdir_with_parents sys (suc fuel) p w)
    mkdir_with_parents-Done zero p w h r =
        level-Done zero p w r
          (λ w' no_top. elim h [ inl top ↦ absurd (no_top top) | inr lt ↦ absurd (omega arith) ])
    mkdir_with_parents-Done (suc fuel) p w h r = level-Done (suc fuel) p w r (λ w' no_top r'.
        elim h [
          | inl top ↦ absurd (no_top top)
          | inr lt ↦ mkdir_with_parents-Done fuel (dirname p) w' (next_level p fuel lt) r'
        ])

    initialised-Refines :
        (o : Option (List ℕ)) (w : World)
        → o ≡ w.config_dir
        → Refines dir store w
        → Ensures (λ d w'. (d ≡ dir) × Refines dir store w') (initialised o w)
    unfolding initialised
    initialised-Refines (some d) w e r = (ap dir_of e ∙ r.in_dir, r)
    initialised-Refines none w e r =
        let same = ap dir_of e ∙ r.in_dir in (same, dir_set-Refines _ same r)

    pub config_get_config_dir-Refines :
        (w : World)
        → Refines dir store w
        → Ensures (λ d w'. (d ≡ dir) × Refines dir store w') (config_get_config_dir w)
    unfolding config_get_config_dir
    config_get_config_dir-Refines w r = initialised-Refines w.config_dir w refl r

    -- With "/" and "." there, config_create_config_dir returns 0, whatever calls are refused, and
    -- every file of the store is as it was.
    pub config_create_config_dir-Done :
        (w : World) → Refines dir store w → Ensures Done (config_create_config_dir sys w)
    unfolding config_create_config_dir stat
    config_create_config_dir-Done w r =
        Ensures-bind config_get_config_dir _ (λ d w'. (d ≡ dir) × Refines dir store w') Done w
          (config_get_config_dir-Refines w r)
          (λ d w' h.
            made_if_missing d w' (unless (sys.refused w'.calls) (w'.disk d)) (called-Refines _ h.1))
      where
        made_if_missing :
            (d : List ℕ) (w' : World) (st : Option Node)
            → Refines dir store (record w' { calls = suc w'.calls })
            → Ensures Done (
                (elim st as (λ _. M ℤ) [
                  | some _ ↦ pure (pos 0)
                  | none ↦ mkdir_with_parents sys (levels sys d) d
                ])
                  (record w' { calls = suc w'.calls }))
        made_if_missing d w' (some n) r' = (r', refl)
        made_if_missing d w' none r' =
            mkdir_with_parents-Done (suc (length d)) d _ (inr (omega arith)) r'
