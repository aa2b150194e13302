-- ===== src/Startup/Privileges.antt =====
-- How main of src/main.c gives up the rights of root.
pub mod Dropped
use usbmuxd.Prelude.{
  List, Option, if◌then◌else◌, negsuc, none, pos, some, zero, ℕ, ℤ, ◌&&◌, ◌==◌, ◌||◌,
}
use usbmuxd.World.{M, call, pure, ◌>>=◌, ◌>>◌}
use usbmuxd.Startup.Os.{Os}

module _ (os : Os) (user : List ℕ) (uid gid : ℕ) where
  -- The security check: the process cannot be root again, and has the ids of the user.
  abbrev pub check_ids : M (Option ℤ)
  check_ids = do
    u ← call
    g ← call
    pure (if os.getuid u == uid && os.getgid g == gid then none else some (negsuc 0))

  -- `setuid(0) != -1`
  abbrev pub check_root : ℤ → M (Option ℤ)
  check_root (negsuc zero) = check_ids
  check_root _ = pure (some (negsuc 0))

  abbrev pub after_setuid : ℤ → M (Option ℤ)
  after_setuid (negsuc n) = pure (some (negsuc n))
  after_setuid (pos n) = do m ← call; check_root (os.setuid m 0)

  abbrev pub after_setgid : ℤ → M (Option ℤ)
  after_setgid (negsuc n) = pure (some (negsuc n))
  after_setgid (pos n) = do m ← call; after_setuid (os.setuid m uid)

  abbrev pub after_initgroups : ℤ → M (Option ℤ)
  after_initgroups (negsuc n) = pure (some (negsuc n))
  after_initgroups (pos n) = do m ← call; after_setgid (os.setgid m gid)

  -- Supplementary groups first, then the group, then the user. `none` where main goes on, otherwise
  -- the value of `res` at `terminate`.
  unfoldable pub become : M (Option ℤ)
  become = do n ← call; after_initgroups (os.initgroups n user gid)

module _ (os : Os) where
  abbrev pub to_user : List ℕ → Option (ℕ × ℕ) → M (Option ℤ)
  to_user user none = pure (some (negsuc 0))
  to_user user (some (uid, gid)) = if uid == 0 then pure none else become os user uid gid

  -- `drop_privileges` is set together with `drop_user`. The owner of the configuration directory,
  -- which is changed before, is left out.
  unfoldable pub drop_privileges : Option (List ℕ) → M (Option ℤ)
  unfolding become
  drop_privileges none = pure none
  drop_privileges (some user) = do
    n ← call
    m ← call
    if os.getuid n == 0 || os.geteuid m == 0 then to_user user (os.getpwnam user) else pure none
