-- ===== src/Startup/Daemonize.antt =====
-- daemonize and notify_parent of src/main.c.
use usbmuxd.Prelude.{
  Bool, List, [], false, if◌then◌else◌, negsuc, none, pos, some, true, ℕ, ℤ, ◌==◌, ◌∷◌,
}
use usbmuxd.Plist.{codes}
use usbmuxd.World.{M, call, failed, pure, ◌>>=◌}
use usbmuxd.Startup.Os.{Fork, Os, child, failed, parent}

-- `report_to_parent`, and what the waiting parent has been told through the pipe.
pub record Pipe : Type 0 where
  pub report_to_parent : Bool
  pub told : List ℤ

abbrev pub no_pipe : Pipe
no_pipe = record { report_to_parent = false; told = [] }

abbrev pub waiting : Pipe
waiting = record { report_to_parent = true; told = [] }

-- What a process is after daemonize: one that returns from it with a result, or one that has ended
-- with an exit code.
pub data Daemon : Type 0 where
  runs : ℤ → Pipe → Daemon
  over : ℤ → Daemon

-- `sizeof(int)`
abbrev pub int_size : ℕ
int_size = 4

module _ (os : Os) where
  abbrev to_null : M Bool
  to_null = do n ← call; pure (os.freopen n (codes "/dev/null"))

  -- The parent waits for the status of its child, and ends with it.
  abbrev pub wait_for_child : M Daemon
  wait_for_child = do
    n ← call
    pure (elim (os.read_status n) [ none ↦ over (pos 1) | some status ↦ over status ])

  abbrev pub redirect : M Daemon
  redirect = do
    n ← call
    if os.chdir n
        then (do
          a ← to_null
          if a
              then (do b ← to_null; pure (runs (if b then pos 0 else negsuc 2) waiting))
              else pure (runs (negsuc 2) waiting))
        else pure (runs (negsuc 1) waiting)

  abbrev pub second_fork : Fork → M Daemon
  second_fork failed = pure (runs (negsuc 0) waiting)
  second_fork parent = pure (over (pos 0))
  second_fork child = redirect

  abbrev pub new_session : M Daemon
  new_session = do
    n ← call
    if os.setsid n then (do m ← call; second_fork (os.fork m)) else pure (runs (negsuc 0) waiting)

  abbrev pub first_fork : Fork → M Daemon
  first_fork failed = pure (runs (negsuc 0) no_pipe)
  first_fork parent = wait_for_child
  first_fork child = new_session

  abbrev pub piped : ℤ → M Daemon
  piped (negsuc n) = pure (runs (negsuc n) no_pipe)
  piped (pos r) = do n ← call; first_fork (os.fork n)

  unfoldable pub daemonize : M Daemon
  daemonize = do
    n ← call
    if os.getppid n == 1 then pure (runs (pos 0) no_pipe) else (do m ← call; piped (os.pipe m))

  -- The status reached the pipe, or not.
  abbrev pub status_written : Pipe → ℤ → ℤ → M (ℤ × Pipe)
  status_written pipe status (negsuc n) = pure (negsuc n, record pipe { report_to_parent = false })
  status_written pipe status (pos r) =
      if r == int_size
      then (do
        a ← to_null
        pure (
          if a then pos 0 else negsuc 0,
          record { report_to_parent = false; told = status ∷ pipe.told },
        ))
      else pure (negsuc 1, record pipe { report_to_parent = false })

  unfoldable pub notify_parent : Pipe → ℤ → M (ℤ × Pipe)
  notify_parent pipe status = do n ← call; status_written pipe status (os.write n int_size)
