-- ===== src/Startup/Privileges/Dropped.antt =====
-- When main of src/main.c goes on after a change of the user.
use usbmuxd.Prelude.{
  ==_iff, Bool, List, Option, ap, arith, false, if◌then◌else◌, is_neg, negsuc, none, pos, refl,
  some, suc, true, zero, ℕ, ℤ, ◌&&◌, ◌==◌, ◌↔◌, ◌≡◌, ◌≢◌,
}
use usbmuxd.World.{Ensures, Ensures-mono, Outcome, World}
use usbmuxd.Startup.Os.{Os}
use usbmuxd.Startup.Privileges.{
  after_initgroups, after_setgid, after_setuid, become, check_ids, check_root, drop_privileges,
}

-- From the call with this number on, the system answers so: the supplementary groups, the group and
-- the user are set, in this order, a way back to root is refused, and the ids are the user's.
abbrev pub IsUser : Os → List ℕ → ℕ → ℕ → ℕ → Type 0
IsUser os user uid gid n =
    (is_neg (os.initgroups n user gid) ≡ false)
    × ((is_neg (os.setgid (suc n) gid) ≡ false)
        × ((is_neg (os.setuid (suc (suc n)) uid) ≡ false)
            × ((os.setuid (suc (suc (suc n))) 0 ≡ negsuc 0)
                × ((os.getuid (suc (suc (suc (suc n)))) ≡ uid)
                    × (os.getgid (suc (suc (suc (suc (suc n))))) ≡ gid)))))

abbrev magnitude : ℤ → ℕ
magnitude (pos n) = n
magnitude (negsuc n) = n

module _ (os : Os) (user : List ℕ) (uid gid : ℕ) where
  -- The answers to the calls from a number on, behind the answer to the call before them.
  abbrev HasIds : ℕ → Type 0
  HasIds n = (os.getuid n ≡ uid) × (os.getgid (suc n) ≡ gid)

  abbrev NoRoot : ℤ → ℕ → Type 0
  NoRoot r n = (r ≡ negsuc 0) × HasIds n

  abbrev HasUser : ℤ → ℕ → Type 0
  HasUser r n = (is_neg r ≡ false) × NoRoot (os.setuid n 0) (suc n)

  abbrev HasGroup : ℤ → ℕ → Type 0
  HasGroup r n = (is_neg r ≡ false) × HasUser (os.setuid n uid) (suc n)

  abbrev HasGroups : ℤ → ℕ → Type 0
  HasGroups r n = (is_neg r ≡ false) × HasGroup (os.setgid n gid) (suc n)

  -- main goes on exactly under a condition.
  abbrev GoesOn : Type 0 → Option ℤ → World → Type 0
  GoesOn P r w = (r ≡ none) ↔ P

  check_ids-GoesOn : (w : World) → Ensures (GoesOn (HasIds w.calls)) (check_ids os user uid gid w)
  check_ids-GoesOn w = go (os.getuid w.calls == uid) (os.getgid (suc w.calls) == gid) refl refl
    where
      go :
          (a b : Bool)
          → (os.getuid w.calls == uid) ≡ a
          → (os.getgid (suc w.calls) == gid) ≡ b
          → ((if a && b then none else some (negsuc 0)) ≡ none) ↔ HasIds w.calls
      go true true u g = (
        λ _. ((==_iff (os.getuid w.calls) uid).0 u, (==_iff (os.getgid (suc w.calls)) gid).0 g),
        λ _. refl,
      )
      go true false u g = (λ e. absurd cc, λ h. absurd (ground arith))
      go false b u g = (λ e. absurd cc, λ h. absurd (ground arith))

  behind :
      (C P : Type 0)
      → C
      → (o : Outcome (Option ℤ)) → Ensures (GoesOn P) o
      → Ensures (GoesOn (C × P)) o
  behind C P c o h =
      Ensures-mono (GoesOn P) (GoesOn (C × P)) o h
        (λ r w k. (λ e. (c, k.0 e), λ both. k.1 (both.1)))

  check_root-GoesOn :
      (r : ℤ) (w : World) → Ensures (GoesOn (NoRoot r w.calls)) (check_root os user uid gid r w)
  check_root-GoesOn (negsuc zero) w =
      behind (negsuc 0 ≡ negsuc 0) (HasIds w.calls) refl (check_ids os user uid gid w)
        (check_ids-GoesOn w)
  check_root-GoesOn (negsuc (suc n)) w =
      (λ e. absurd cc, λ h. absurd (omega (arith, ap magnitude (h.0))))
  check_root-GoesOn (pos n) w = (λ e. absurd cc, λ h. absurd cc)

  after_setuid-GoesOn :
      (r : ℤ) (w : World) → Ensures (GoesOn (HasUser r w.calls)) (after_setuid os user uid gid r w)
  after_setuid-GoesOn (negsuc n) w = (λ e. absurd cc, λ h. absurd cc)
  after_setuid-GoesOn (pos n) w =
      behind (false ≡ false) (NoRoot (os.setuid w.calls 0) (suc w.calls)) refl
        (check_root os user uid gid (os.setuid w.calls 0) (record w { calls = suc w.calls }))
        (check_root-GoesOn (os.setuid w.calls 0) (record w { calls = suc w.calls }))

  after_setgid-GoesOn :
      (r : ℤ) (w : World) → Ensures (GoesOn (HasGroup r w.calls)) (after_setgid os user uid gid r w)
  after_setgid-GoesOn (negsuc n) w = (λ e. absurd cc, λ h. absurd cc)
  after_setgid-GoesOn (pos n) w =
      behind (false ≡ false) (HasUser (os.setuid w.calls uid) (suc w.calls)) refl
        (after_setuid os user uid gid (os.setuid w.calls uid) (record w { calls = suc w.calls }))
        (after_setuid-GoesOn (os.setuid w.calls uid) (record w { calls = suc w.calls }))

  after_initgroups-GoesOn :
      (r : ℤ) (w : World)
      → Ensures (GoesOn (HasGroups r w.calls)) (after_initgroups os user uid gid r w)
  after_initgroups-GoesOn (negsuc n) w = (λ e. absurd cc, λ h. absurd cc)
  after_initgroups-GoesOn (pos n) w =
      behind (false ≡ false) (HasGroup (os.setgid w.calls gid) (suc w.calls)) refl
        (after_setgid os user uid gid (os.setgid w.calls gid) (record w { calls = suc w.calls }))
        (after_setgid-GoesOn (os.setgid w.calls gid) (record w { calls = suc w.calls }))

  become-GoesOn :
      (w : World) → Ensures (GoesOn (IsUser os user uid gid w.calls)) (become os user uid gid w)
  unfolding become
  become-GoesOn w =
      after_initgroups-GoesOn (os.initgroups w.calls user gid) (record w { calls = suc w.calls })

  -- A process that runs as root and is to become a user other than root: main goes on if and only
  -- if, after two calls for its ids, its next six calls set the supplementary groups, then the
  -- group, then the user, have a way back to root refused with -1, and name the ids of the user.
  -- Otherwise main ends.
  pub drop_privileges-Dropped :
      (w : World)
      → os.getuid w.calls ≡ 0
      → os.getpwnam user ≡ some (uid, gid)
      → uid ≢ 0
      → Ensures
          (λ r w'. (r ≡ none) ↔ IsUser os user uid gid (suc (suc w.calls)))
          (drop_privileges os (some user) w)
  unfolding drop_privileges
  drop_privileges-Dropped w is_root known other =
      let no_root : (uid == 0) ≡ false = ground arith in
      rw (is_root, known, no_root) (become-GoesOn (record w { calls = suc (suc w.calls) }))
