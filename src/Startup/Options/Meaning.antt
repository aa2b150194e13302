-- ===== src/Startup/Options/Meaning.antt =====
-- What the options of parse_opts in src/main.c come to, whatever their order.
use usbmuxd.Startup.Options.{
  Build, Opt, Options, Parsed, config_dir, disable_hotplug, enable_exit, exit, exits, force_exit,
  foreground, goes_on, help, logfile, no_preflight, pidfile, pidfile_of, sigterm, sigusr1, socket,
  systemd, udev, unknown, user, verbose, version,
}
use usbmuxd.Prelude.{
  Bool, List, Option, [], ap, arith, false, if◌then◌else◌, none, refl, some, sym, true, ℕ, ◌+◌,
  ◌==◌, ◌||◌, ◌∙◌, ◌∷◌, ◌≡◌,
}
use usbmuxd.World.{World}

abbrev pub how_many : (Opt → Bool) → List Opt → ℕ
how_many test [] = 0
how_many test (o ∷ opts) = (if test o then 1 else 0) + how_many test opts

abbrev pub any_of : (Opt → Bool) → List Opt → Bool
any_of test [] = false
any_of test (o ∷ opts) = test o || any_of test opts

abbrev pub last_of : {A : Type 0} → (Opt → Option A) → List Opt → Option A
last_of f [] = none
last_of f (o ∷ opts) = elim (last_of f opts) [ some a ↦ some a | none ↦ f o ]

abbrev pub or_before : {A : Type 0} → Option A → A → A
or_before none v = v
or_before (some a) v = a

abbrev pub is_verbose : Opt → Bool
is_verbose verbose = true
is_verbose _ = false

abbrev pub means_foreground : Opt → Bool
means_foreground foreground = true
means_foreground systemd = true
means_foreground _ = false

abbrev pub means_disable_hotplug : Opt → Bool
means_disable_hotplug udev = true
means_disable_hotplug disable_hotplug = true
means_disable_hotplug _ = false

abbrev pub means_enable_exit : Opt → Bool
means_enable_exit udev = true
means_enable_exit systemd = true
means_enable_exit enable_exit = true
means_enable_exit _ = false

abbrev pub user_of : Opt → Option (Option (List ℕ))
user_of (user optarg) = some (some optarg)
user_of _ = none

abbrev pub signal_of : Opt → Option (Option ℕ)
signal_of exit = some (some sigusr1)
signal_of force_exit = some (some sigterm)
signal_of _ = none

abbrev pub lockfile_of : Opt → Option (Option (List ℕ))
lockfile_of (pidfile optarg) = some (pidfile_of optarg)
lockfile_of _ = none

abbrev pub addr_of : Opt → Option (Option (List ℕ))
addr_of (socket optarg) = some (some optarg)
addr_of _ = none

abbrev pub means_no_preflight : Opt → Bool
means_no_preflight no_preflight = true
means_no_preflight _ = false

-- An option that sends the log to a file that can be opened.
abbrev pub logs_to : (List ℕ → Bool) → Opt → Bool
logs_to openable (logfile path) = openable path
logs_to openable _ = false

-- A name that is missing, or the next option.
abbrev pub no_name : List ℕ → Bool
no_name [] = true
no_name (c ∷ cs) = c == 45

-- The code with which an option ends the process, given whether there is a log file already.
abbrev pub exit_of : Build → Bool → Opt → Option ℕ
exit_of build logging help = some 0
exit_of build logging version = some 0
exit_of build logging unknown = some 2
exit_of build logging udev = if build.have_udev then none else some 2
exit_of build logging systemd = if build.have_systemd then none else some 2
exit_of build logging (config_dir []) = some 2
exit_of build logging (socket path) = if no_name path then some 2 else none
exit_of build logging (pidfile path) = if no_name path then some 2 else none
exit_of build logging (logfile []) = some 2
exit_of build logging (logfile path) = if logging then some 2 else none
exit_of build logging _ = none

abbrev pub or_else : Option ℕ → Option ℕ → Option ℕ
or_else (some code) r = some code
or_else none r = r

-- The code of the first option that ends the process, if there is one.
abbrev pub first_exit : Build → (List ℕ → Bool) → Bool → List Opt → Option ℕ
first_exit build openable logging [] = none
first_exit build openable logging (o ∷ opts) =
    or_else (exit_of build logging o)
      (first_exit build openable (logs_to openable o || logging) opts)

-- The options in force after some, from those before: flags that are set stay set, verbosity is
-- counted, and of a value that is given more than once the last counts.
pub record Means (openable : List ℕ → Bool) (before : Options) (opts : List Opt) (after : Options)
    : Type 0 where
  pub counted : after.verbosity ≡ how_many is_verbose opts + before.verbosity
  pub stays : after.in_foreground ≡ (any_of means_foreground opts || before.in_foreground)
  pub hotplug :
      after.opt_disable_hotplug ≡ (any_of means_disable_hotplug opts || before.opt_disable_hotplug)
  pub exits_alone :
      after.opt_enable_exit ≡ (any_of means_enable_exit opts || before.opt_enable_exit)
  pub last_user : after.drop_user ≡ or_before (last_of user_of opts) before.drop_user
  pub last_signal : after.exit_signal ≡ or_before (last_of signal_of opts) before.exit_signal
  pub last_lockfile : after.lockfile ≡ or_before (last_of lockfile_of opts) before.lockfile
  pub last_addr : after.listen_addr ≡ or_before (last_of addr_of opts) before.listen_addr
  pub logs : after.use_logfile ≡ (any_of (logs_to openable) opts || before.use_logfile)

-- What parse_opts comes to, from options in force and whether the pairing is skipped already.
abbrev pub Reads : Build → (List ℕ → Bool) → Options → Bool → List Opt → Parsed → World → Type 0
Reads build openable before was opts (goes_on after) w =
    Means openable before opts after
    × (w.no_preflight ≡ (any_of means_no_preflight opts || was))
    × (first_exit build openable before.use_logfile opts ≡ none)
Reads build openable before was opts (exits code) w =
    first_exit build openable before.use_logfile opts ≡ some code

pub nothing_read : (openable : List ℕ → Bool) (o : Options) → Means openable o [] o
nothing_read openable o = record {
  counted = omega arith;
  stays = refl;
  hotplug = refl;
  exits_alone = refl;
  last_user = refl;
  last_signal = refl;
  last_lockfile = refl;
  last_addr = refl;
  logs = refl;
}

last_swap :
    {A : Type 0} (a b : Option A) (v : A)
    → or_before b (or_before a v)
      ≡ or_before (elim b as (λ _. Option A) [ some x ↦ some x | none ↦ a ]) v
last_swap a (some x) v = refl
last_swap a none v = refl

pub flag :
    (test : Opt → Bool) (opt : Opt) (opts : List Opt) (b : Bool)
    → (any_of test opts || ((test opt || false) || b)) ≡ ((test opt || any_of test opts) || b)
flag test opt opts b = flags (test opt) (any_of test opts)
  where
    flags : (x y : Bool) → (y || ((x || false) || b)) ≡ ((x || y) || b)
    flags true true = refl
    flags true false = refl
    flags false y = refl

-- One option, then others.
pub Means-cons :
    (openable : List ℕ → Bool) (o : Options) (opt : Opt) (opts : List Opt) (o1 o2 : Options)
    → Means openable o (opt ∷ []) o1
    → Means openable o1 opts o2
    → Means openable o (opt ∷ opts) o2
Means-cons openable o opt opts o1 o2 h k = record {
  counted = omega (arith, h.counted, k.counted);
  stays =
      k.stays
      ∙ ap (λ b. any_of means_foreground opts || b) h.stays
      ∙ flag means_foreground opt opts o.in_foreground;
  hotplug =
      k.hotplug
      ∙ ap (λ b. any_of means_disable_hotplug opts || b) h.hotplug
      ∙ flag means_disable_hotplug opt opts o.opt_disable_hotplug;
  exits_alone =
      k.exits_alone
      ∙ ap (λ b. any_of means_enable_exit opts || b) h.exits_alone
      ∙ flag means_enable_exit opt opts o.opt_enable_exit;
  last_user =
      k.last_user
      ∙ ap (or_before (last_of user_of opts)) h.last_user
      ∙ last_swap (user_of opt) (last_of user_of opts) o.drop_user;
  last_signal =
      k.last_signal
      ∙ ap (or_before (last_of signal_of opts)) h.last_signal
      ∙ last_swap (signal_of opt) (last_of signal_of opts) o.exit_signal;
  last_lockfile =
      k.last_lockfile
      ∙ ap (or_before (last_of lockfile_of opts)) h.last_lockfile
      ∙ last_swap (lockfile_of opt) (last_of lockfile_of opts) o.lockfile;
  last_addr =
      k.last_addr
      ∙ ap (or_before (last_of addr_of opts)) h.last_addr
      ∙ last_swap (addr_of opt) (last_of addr_of opts) o.listen_addr;
  logs =
      k.logs
      ∙ ap (λ b. any_of (logs_to openable) opts || b) h.logs
      ∙ flag (logs_to openable) opt opts o.use_logfile;
}

-- The first option does not end the process.
pub first_exit-later :
    (build : Build) (openable : List ℕ → Bool) (o o1 : Options) (opt : Opt) (opts : List Opt)
    (r : Option ℕ)
    → first_exit build openable o.use_logfile (opt ∷ []) ≡ none
    → Means openable o (opt ∷ []) o1
    → first_exit build openable o1.use_logfile opts ≡ r
    → first_exit build openable o.use_logfile (opt ∷ opts) ≡ r
first_exit-later build openable o o1 opt opts r none_first m rest =
    go (exit_of build o.use_logfile opt) none_first
  where
    dropped : (a b : Bool) → (a || b) ≡ ((a || false) || b)
    dropped true b = refl
    dropped false b = refl

    go :
        (e : Option ℕ)
        → or_else e none ≡ none
        → or_else e (first_exit build openable (logs_to openable opt || o.use_logfile) opts) ≡ r
    go (some code) h = absurd cc
    go none h =
        ap (λ b. first_exit build openable b opts)
          (dropped (logs_to openable opt) o.use_logfile ∙ sym (m.logs))
        ∙ rest

-- The first option ends the process.
pub first_exit-now :
    (build : Build) (openable : List ℕ → Bool) (logging : Bool) (opt : Opt) (opts : List Opt)
    (code : ℕ)
    → first_exit build openable logging (opt ∷ []) ≡ some code
    → first_exit build openable logging (opt ∷ opts) ≡ some code
first_exit-now build openable logging opt opts code = go (exit_of build logging opt)
  where
    go :
        (e : Option ℕ)
        → or_else e none ≡ some code
        → or_else e (first_exit build openable (logs_to openable opt || logging) opts) ≡ some code
    go (some c) h = h
    go none h = absurd cc
