-- ===== src/Startup/Instance.antt =====
-- How main of src/main.c treats another instance, which holds a lock on the lock file.
use usbmuxd.Prelude.{Bool, Option, if◌then◌else◌, length, negsuc, none, pos, some, ℕ, ℤ, ◌==◌}
use usbmuxd.World.{M, call, pure, ◌>>=◌}
use usbmuxd.Client.Replies.{decimal}
use usbmuxd.Startup.Os.{Os}
use usbmuxd.Startup.Options.{Options}

abbrev pub sigusr2 : ℕ
sigusr2 = 12

module _ (os : Os) where
  abbrev kill : ℕ → ℕ → M Bool
  kill pid sig = do n ← call; pure (os.kill n pid sig)

  -- A process that is there gets the signal; 0, or -1.
  unfoldable pub signal_instance : ℕ → ℕ → M ℤ
  signal_instance pid sig = if pid == 0 then pure (negsuc 0) else (do
    alive ← kill pid 0
    if alive
        then (do delivered ← kill pid sig; pure (if delivered then pos 0 else negsuc 0))
        else pure (negsuc 0))

  -- With another instance: the value of `res` at `terminate`.
  unfoldable pub other_instance : Options → ℕ → M ℤ
  unfolding signal_instance
  other_instance o pid = elim (o.exit_signal) [
    | some sig ↦ signal_instance pid sig
    | none ↦ if o.opt_disable_hotplug then signal_instance pid sigusr2 else pure (negsuc 0)
  ]

  -- Without: a request to end it has nothing to do. `fd` is the descriptor in `res`.
  abbrev pub no_instance : Options → ℤ → Option ℤ
  no_instance o fd = elim (o.exit_signal) [ some sig ↦ some fd | none ↦ none ]

  -- An old lock file is removed, if that works.
  abbrev pub by_holder : Options → ℤ → Option ℕ → M (Option ℤ)
  by_holder o fd (some pid) = do res ← other_instance o pid; pure (some res)
  by_holder o fd none = do n ← call; pure (no_instance o fd)

  abbrev pub probe : Options → ℤ → M (Option ℤ)
  probe o (negsuc n) = pure (some (negsuc n))
  probe o (pos fd) = do n ← call; by_holder o (pos fd) (os.lock_holder n)

  -- `none` where main goes on, otherwise the value of `res` at `terminate`.
  unfoldable pub check_instance : Options → M (Option ℤ)
  unfolding other_instance
  check_instance o = elim (o.lockfile) [
    | none ↦ pure (no_instance o (pos 0))
    | some path ↦ do n ← call; probe o (os.open_file n path)
  ]

  -- `write` of the decimal digits of the pid.
  abbrev pub pid_written : ℕ → ℤ → Option ℤ
  pid_written len (negsuc n) = some (negsuc n)
  pid_written len (pos n) = if n == len then none else some (negsuc 1)

  abbrev pub write_pid : M (Option ℤ)
  write_pid = do
    n ← call
    m ← call
    let len = length (decimal (os.getpid n))
    pure (pid_written len (os.write m len))

  abbrev pub lock_placed : ℤ → M (Option ℤ)
  lock_placed (negsuc n) = pure (some (negsuc n))
  lock_placed (pos n) = write_pid

  abbrev pub lock_opened : ℤ → M (Option ℤ)
  lock_opened (negsuc n) = pure (some (negsuc n))
  lock_opened (pos fd) = do n ← call; lock_placed (os.set_lock n)

  -- The lock file of this instance.
  unfoldable pub place_lock : Options → M (Option ℤ)
  unfolding decimal
  place_lock o = elim (o.lockfile) [
    | none ↦ pure none
    | some path ↦ do n ← call; lock_opened (os.open_file n path)
  ]
