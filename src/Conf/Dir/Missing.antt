-- ===== src/Conf/Dir/Missing.antt =====
-- Two missing levels: mkdir_with_parents of src/conf.c makes the upper one only.
use usbmuxd.Conf.Path.Distinct.{eq_bytes_ne, eq_bytes_self}
use usbmuxd.Prelude.{Bool, List, ap, false, none, pos, refl, some, suc, true, ℕ, ◌∙◌, ◌≡◌, ◌≢◌}
use usbmuxd.World.{Ensures, Sys, World, directory, put, ret, ◌>>=◌}
use usbmuxd.Conf.Path.{dirname}
use usbmuxd.Conf.Files.{is_directory, made, mkdir}
use usbmuxd.Conf.Dir.{mkdir_with_parents}

module _ (sys : Sys) (free : (n : ℕ) → sys.refused n ≡ none) where
  mkdir_run :
      (p : List ℕ) (w : World) (parent : Bool)
      → w.disk p ≡ none
      → is_directory (w.disk (dirname p)) ≡ parent
      → mkdir sys p w ≡ made p none parent none (record w { calls = suc w.calls })
  unfolding mkdir
  mkdir_run p w parent a b =
      ap
        (λ n.
          made p n (is_directory (w.disk (dirname p))) (sys.refused w.calls)
            (record w { calls = suc w.calls }))
        a
      ∙ ap (λ d. made p none d (sys.refused w.calls) (record w { calls = suc w.calls })) b
      ∙ ap (λ e. made p none parent e (record w { calls = suc w.calls })) (free w.calls)

  -- No parent: the result is that for the parent.
  missing_level :
      (fuel : ℕ) (p : List ℕ) (w : World)
      → w.disk p ≡ none
      → w.disk (dirname p) ≡ none
      → mkdir_with_parents sys (suc fuel) p w
        ≡ mkdir_with_parents sys fuel (dirname p) (record w { calls = suc w.calls })
  unfolding mkdir_with_parents
  missing_level fuel p w a b = rw (mkdir_run p w false a (ap is_directory b), ◌>>=◌) refl

  made_level :
      (fuel : ℕ) (p : List ℕ) (w : World)
      → w.disk p ≡ none
      → w.disk (dirname p) ≡ some directory
      → mkdir_with_parents sys (suc fuel) p w
        ≡ ret (pos 0) (record w { calls = suc w.calls; disk = put w.disk p (some directory) })
  unfolding mkdir_with_parents
  made_level fuel p w a b = rw (mkdir_run p w true a (ap is_directory b), ◌>>=◌) refl

  -- Where the directory and its parent are missing and the one above is there, mkdir_with_parents
  -- answers 0, has made the parent, and has not made the directory; no call is refused.
  pub mkdir_with_parents-missing :
      (fuel : ℕ) (dir : List ℕ) (w : World)
      → w.disk dir ≡ none
      → w.disk (dirname dir) ≡ none
      → w.disk (dirname (dirname dir)) ≡ some directory
      → Ensures
          (λ r w'. (r ≡ pos 0) × (w'.disk (dirname dir) ≡ some directory) × (w'.disk dir ≡ none))
          (mkdir_with_parents sys (suc (suc fuel)) dir w)
  mkdir_with_parents-missing fuel dir w a b c =
      rw
        (
          missing_level (suc fuel) dir w a b,
          made_level fuel (dirname dir) (record w { calls = suc w.calls }) b c,
        )
        (refl, rw (eq_bytes_self (dirname dir)) refl, rw (eq_bytes_ne (dirname dir) dir other) a)
    where
      other : dirname dir ≢ dir
      other e =
          let same : w.disk (dirname (dirname dir)) ≡ w.disk (dirname dir) =
            ap (λ p. w.disk (dirname p)) e in
          cc
