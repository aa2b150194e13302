-- ===== src/Startup/Os.antt =====
-- The calls that src/main.c makes to the system before and after its main loop. The answer of a
-- call depends on its number in the sequence of all calls.
use usbmuxd.Prelude.{Bool, List, Option, ℕ, ℤ}

-- The two sides of `fork`.
pub data Fork : Type 0 where
  failed parent child : Fork

-- The families of addresses.
pub data Family : Type 0 where
  inet inet6 other_family : Family

pub record Os : Type 0 where
  -- Whether `freopen` of a standard stream succeeds.
  pub freopen : ℕ → List ℕ → Bool
  -- `open` of a file for writing: a descriptor, or a negative result.
  pub open_file : ℕ → List ℕ → ℤ
  -- `fcntl` with F_GETLK: the pid of the process that holds a lock, which may be unknown (0);
  -- with F_SETLK: the result.
  pub lock_holder : ℕ → Option ℕ
  pub set_lock : ℕ → ℤ
  -- `write` of so many bytes.
  pub write : ℕ → ℕ → ℤ
  -- Whether `kill(pid, sig)` succeeds.
  pub kill : ℕ → ℕ → ℕ → Bool
  pub getpid : ℕ → ℕ
  pub getppid : ℕ → ℕ
  pub pipe : ℕ → ℤ
  pub fork : ℕ → Fork
  -- `read` of the status: what the child wrote, `none` where it wrote nothing.
  pub read_status : ℕ → Option ℤ
  pub setsid : ℕ → Bool
  pub chdir : ℕ → Bool
  pub getuid : ℕ → ℕ
  pub geteuid : ℕ → ℕ
  pub getgid : ℕ → ℕ
  -- `getpwnam`: the ids of a user.
  pub getpwnam : List ℕ → Option (ℕ × ℕ)
  pub initgroups : ℕ → List ℕ → ℕ → ℤ
  pub setgid : ℕ → ℕ → ℤ
  pub setuid : ℕ → ℕ → ℤ
  -- `getaddrinfo` of a host and a port: the addresses, `none` on an error.
  pub getaddrinfo : ℕ → List ℕ → List ℕ → Option (List Family)
  pub socket : ℕ → Option ℕ
  pub setsockopt : ℕ → Bool
  pub bind : ℕ → Bool
  pub bind_path : ℕ → List ℕ → Bool
  -- `stat`: whether what stands at the path is a socket, `none` where it fails.
  pub is_socket : ℕ → List ℕ → Option Bool
  -- `unlink`: the error number, `none` on success.
  pub unlink : ℕ → List ℕ → Option ℕ
  pub get_flags : ℕ → ℤ
  pub listen : ℕ → Bool
