-- ===== src/Startup/Options.antt =====
-- parse_opts of src/main.c, over the sequence of what getopt_long hands out.
pub mod Meaning
pub mod Turn
pub mod Reading
use usbmuxd.Prelude.{
  Bool, List, Option, [], eq_bytes, false, if◌then◌else◌, none, some, suc, true, ℕ, ◌==◌, ◌||◌, ◌∷◌,
}
use usbmuxd.Plist.{codes}
use usbmuxd.World.{M, Sys, call, pure, ret, ◌>>=◌, ◌>>◌}
use usbmuxd.Conf.Dir.{config_set_config_dir}
use usbmuxd.Startup.Os.{Os}

-- An option, by its long name, with `optarg` where it takes one.
pub data Opt : Type 0 where
  help foreground verbose version no_preflight udev systemd disable_hotplug enable_exit exit : Opt
  force_exit unknown : Opt
  user config_dir socket pidfile logfile : List ℕ → Opt

-- `HAVE_UDEV` and `HAVE_SYSTEMD`.
pub record Build : Type 0 where
  pub have_udev : Bool
  pub have_systemd : Bool

-- `SIGUSR1` and `SIGTERM`.
abbrev pub sigusr1 : ℕ
sigusr1 = 10

abbrev pub sigterm : ℕ
sigterm = 15

-- The globals of src/main.c that the options set; `drop_user` is set with `drop_privileges`.
pub record Options : Type 0 where
  pub verbosity : ℕ
  pub in_foreground : Bool
  pub drop_user : Option (List ℕ)
  pub opt_disable_hotplug : Bool
  pub opt_enable_exit : Bool
  pub exit_signal : Option ℕ
  pub lockfile : Option (List ℕ)
  pub listen_addr : Option (List ℕ)
  pub use_logfile : Bool

-- Their values before main.
abbrev pub no_options : Options
no_options = record {
  verbosity = 0;
  in_foreground = false;
  drop_user = none;
  opt_disable_hotplug = false;
  opt_enable_exit = false;
  exit_signal = none;
  lockfile = some (codes "/var/run/usbmuxd.pid");
  listen_addr = none;
  use_logfile = false;
}

-- The options are read, or the process exits with a code.
pub data Parsed : Type 0 where
  goes_on : Options → Parsed
  exits : ℕ → Parsed

-- `!*optarg || *optarg == '-'`
abbrev pub is_no_argument : List ℕ → Bool
is_no_argument [] = true
is_no_argument (c ∷ cs) = c == 45

abbrev pub is_empty : List ℕ → Bool
is_empty [] = true
is_empty (c ∷ cs) = false

abbrev pub pidfile_of : List ℕ → Option (List ℕ)
pidfile_of optarg = if eq_bytes optarg (codes "NONE") then none else some optarg

abbrev set_no_preflight : M (Unit {0})
set_no_preflight w = ret tt (record w { no_preflight = true })

module _ (sys : Sys) (os : Os) (build : Build) where
  -- The standard error goes to the file, if it can be opened.
  abbrev pub log_to : Options → List ℕ → M Parsed
  log_to o optarg = do
    n ← call
    pure (goes_on (if os.freopen n optarg then record o { use_logfile = true } else o))

  -- One turn of the loop.
  unfoldable pub parse_opt : Options → Opt → M Parsed
  unfolding config_set_config_dir eq_bytes
  parse_opt o help = pure (exits 0)
  parse_opt o foreground = pure (goes_on (record o { in_foreground = true }))
  parse_opt o verbose = pure (goes_on (record o { verbosity = suc o.verbosity }))
  parse_opt o version = pure (exits 0)
  parse_opt o (user optarg) = pure (goes_on (record o { drop_user = some optarg }))
  parse_opt o no_preflight = set_no_preflight >> pure (goes_on o)
  parse_opt o udev = pure (
      if build.have_udev
      then goes_on (record o { opt_disable_hotplug = true; opt_enable_exit = true })
      else exits 2)
  parse_opt o systemd = pure (
      if build.have_systemd
      then goes_on (record o { opt_enable_exit = true; in_foreground = true })
      else exits 2)
  parse_opt o disable_hotplug = pure (goes_on (record o { opt_disable_hotplug = true }))
  parse_opt o enable_exit = pure (goes_on (record o { opt_enable_exit = true }))
  parse_opt o (config_dir optarg) =
      if is_empty optarg
      then pure (exits 2)
      else config_set_config_dir sys (some optarg) >> pure (goes_on o)
  parse_opt o (socket optarg) =
      pure (
        if is_no_argument optarg then exits 2 else goes_on (record o { listen_addr = some optarg }))
  parse_opt o (pidfile optarg) = pure (
      if is_no_argument optarg
      then exits 2
      else goes_on (record o { lockfile = pidfile_of optarg }))
  parse_opt o exit = pure (goes_on (record o { exit_signal = some sigusr1 }))
  parse_opt o force_exit = pure (goes_on (record o { exit_signal = some sigterm }))
  parse_opt o (logfile optarg) =
      if is_empty optarg || o.use_logfile then pure (exits 2) else log_to o optarg
  parse_opt o unknown = pure (exits 2)

  unfoldable pub parse_opts : Options → List Opt → M Parsed
  unfolding parse_opt
  parse_opts o [] = pure (goes_on o)
  parse_opts o (opt ∷ opts) = do
    parsed ← parse_opt o opt
    elim parsed [ exits code ↦ pure (exits code) | goes_on o' ↦ parse_opts o' opts ]
