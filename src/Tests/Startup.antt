-- ===== src/Tests/Startup.antt =====
-- The theorems on the start of src/main.c at concrete inputs.
use usbmuxd.Startup.Options.Turn.{Tops}
use usbmuxd.Prelude.{
  Bool, List, [], arith, eq_bytes, false, if◌then◌else◌, negsuc, none, pos, refl, some, true, ℕ,
  ◌++◌, ◌==◌, ◌↔◌, ◌∷◌, ◌≡◌, ◌≢◌,
}
use usbmuxd.Plist.{codes}
use usbmuxd.World.{Ensures, pure}
use usbmuxd.Startup.Os.{Os, child, inet}
use usbmuxd.Startup.Options.{
  Build, Opt, exit, logfile, no_options, no_preflight, parse_opts, pidfile, udev, user, verbose,
}
use usbmuxd.Startup.Options.Meaning.{Reads}
use usbmuxd.Startup.Options.Reading.{parse_opts-Reads}
use usbmuxd.Startup.Daemonize.{runs, waiting}
use usbmuxd.Startup.Privileges.{drop_privileges}
use usbmuxd.Startup.Privileges.Dropped.{IsUser, drop_privileges-Dropped}
use usbmuxd.Startup.Socket.{last_colon}
use usbmuxd.Startup.Socket.Address.{any_colon, last_colon-split}
use usbmuxd.Startup.Main.{Outside, as_daemon}
use usbmuxd.Startup.Main.Reporting.{ToldOnce, as_daemon-ToldOnce, stages}
use usbmuxd.Tests.Fixture.{start}
use usbmuxd.Tests.Configuration.{disk, files}

-- A system where every call succeeds, for a process that is root at first.
abbrev system : Os
system = record {
  freopen = λ n path. true;
  open_file = λ n path. pos 3;
  lock_holder = λ n. none;
  set_lock = λ n. pos 0;
  write = λ n len. pos len;
  kill = λ n pid sig. true;
  getpid = λ n. 4711;
  getppid = λ n. 1;
  pipe = λ n. pos 0;
  fork = λ n. child;
  read_status = λ n. some (pos 0);
  setsid = λ n. true;
  chdir = λ n. true;
  getuid = λ n. if n == 0 then 0 else 501;
  geteuid = λ n. if n == 1 then 0 else 501;
  getgid = λ n. 20;
  getpwnam = λ name. some (501, 20);
  initgroups = λ n name gid. pos 0;
  setgid = λ n gid. pos 0;
  setuid = λ n uid. if uid == 0 then negsuc 0 else pos 0;
  getaddrinfo = λ n host port. some (inet ∷ []);
  socket = λ n. some 3;
  setsockopt = λ n. true;
  bind = λ n. true;
  bind_path = λ n path. true;
  is_socket = λ n path. some false;
  unlink = λ n path. none;
  get_flags = λ n. pos 2;
  listen = λ n. true;
}

abbrev linux : Build
linux = record { have_udev = true; have_systemd = true }

abbrev around : Outside
around = record {
  events = pure (pos 0);
  rounds = 3;
  accept = pure none;
  libusb_init = pure (pos 0);
  hotplug = none;
  polls = [];
}

abbrev arguments : List Opt
arguments =
    verbose
    ∷ udev
    ∷ user (codes "usbmux")
    ∷ pidfile (codes "NONE")
    ∷ exit
    ∷ no_preflight
    ∷ logfile (codes "log")
    ∷ verbose
    ∷ []

abbrev all_open : List ℕ → Bool
all_open path = true

parse_opts-Reads_example :
    Ensures
      (λ r w'. Reads linux all_open no_options false arguments r w' × Tops w')
      (parse_opts files system linux no_options arguments disk)
unfolding eq_bytes
parse_opts-Reads_example =
    parse_opts-Reads files system linux all_open (λ n path. refl) no_options arguments disk
      (refl, refl)

as_daemon-ToldOnce_example :
    ToldOnce
      (stages files system around no_options (pos 0) disk)
      (as_daemon files system around no_options (runs (pos 0) waiting) disk)
as_daemon-ToldOnce_example =
    as_daemon-ToldOnce files system around (λ n len. refl) no_options (pos 0) disk

not_root : ◌≢◌ {A = ℕ} 501 0
not_root e = omega arith

drop_privileges-Dropped_example :
    Ensures
      (λ r w'. (r ≡ none) ↔ IsUser system (codes "usbmux") 501 20 2)
      (drop_privileges system (some (codes "usbmux")) start)
drop_privileges-Dropped_example =
    drop_privileges-Dropped system (codes "usbmux") 501 20 start refl refl not_root

last_colon-split_example :
    last_colon (codes "::1" ++ (58 ∷ codes "27015")) ≡ some (codes "::1", codes "27015")
unfolding any_colon
last_colon-split_example = last_colon-split (codes "::1") (codes "27015") refl
