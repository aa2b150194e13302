-- ===== src/Startup/Options/Turn.antt =====
-- One turn of the loop of parse_opts in src/main.c.
use usbmuxd.Conf.Files.{contents}
use usbmuxd.Conf.Dir.Created.{Done, config_create_config_dir-Done}
use usbmuxd.Conf.Dir.{config_create_config_dir, config_set_config_dir}
use usbmuxd.Startup.Os.{Os}
use usbmuxd.Conf.Path.{dir_sep, dot, entry_path}
use usbmuxd.Startup.Options.Meaning.{
  Means, Reads, addr_of, any_of, how_many, is_verbose, lockfile_of, logs_to, means_disable_hotplug,
  means_enable_exit, means_foreground, or_before, signal_of, user_of,
}
use usbmuxd.Conf.Frame.{create_dir-Keeps}
use usbmuxd.World.{Ensures, Ensures-and, Ensures-bind, Ensures-mono, Sys, World, directory, pure}
use usbmuxd.Prelude.{
  Bool, Bool-cases, List, [], arith, false, if◌then◌else◌, inl, inr, refl, some, suc, true, ℕ, ◌+◌,
  ◌==◌, ◌||◌, ◌∷◌, ◌≡◌,
}
use usbmuxd.Startup.Options.{
  Build, Opt, Options, Parsed, config_dir, disable_hotplug, enable_exit, exit, force_exit,
  foreground, goes_on, help, logfile, no_preflight, parse_opt, pidfile, pidfile_of, sigterm,
  sigusr1, socket, systemd, udev, unknown, user, verbose, version,
}

one_read :
    (openable : List ℕ → Bool) (o : Options) (opt : Opt) (after : Options)
    → after.verbosity ≡ how_many is_verbose (opt ∷ []) + o.verbosity
    → after.in_foreground ≡ (any_of means_foreground (opt ∷ []) || o.in_foreground)
    → after.opt_disable_hotplug ≡ (any_of means_disable_hotplug (opt ∷ []) || o.opt_disable_hotplug)
    → after.opt_enable_exit ≡ (any_of means_enable_exit (opt ∷ []) || o.opt_enable_exit)
    → after.drop_user ≡ or_before (user_of opt) o.drop_user
    → after.exit_signal ≡ or_before (signal_of opt) o.exit_signal
    → after.lockfile ≡ or_before (lockfile_of opt) o.lockfile
    → after.listen_addr ≡ or_before (addr_of opt) o.listen_addr
    → after.use_logfile ≡ (any_of (logs_to openable) (opt ∷ []) || o.use_logfile)
    → Means openable o (opt ∷ []) after
one_read openable o opt after a b c d e f g h i = record {
  counted = a;
  stays = b;
  hotplug = c;
  exits_alone = d;
  last_user = e;
  last_signal = f;
  last_lockfile = g;
  last_addr = h;
  logs = i;
}

-- "/" and "." are directories.
abbrev pub Tops : World → Type 0
Tops w = (w.disk (dir_sep ∷ []) ≡ some directory) × (w.disk (dot ∷ []) ≡ some directory)

module _ (sys : Sys) (os : Os) (build : Build) (openable : List ℕ → Bool)
    (opens : (n : ℕ) (path : List ℕ) → os.freopen n path ≡ openable path) where
  -- A new configuration directory leaves "/" and "." as they are, and no_preflight.
  set_dir-Tops :
      (path : List ℕ) (w : World)
      → Tops w
      → Ensures
          (λ r w'. Tops w' × (w'.no_preflight ≡ w.no_preflight))
          (config_set_config_dir sys (some path) w)
  unfolding config_set_config_dir
  set_dir-Tops path w (root, here) =
      Ensures-and (λ r w'. Tops w') (λ r w'. w'.no_preflight ≡ w.no_preflight)
        (config_create_config_dir sys (record w { config_dir = some path }))
        (Ensures-mono (Done path (λ id. contents (w.disk (entry_path path id)))) (λ r w'. Tops w')
          (config_create_config_dir sys (record w { config_dir = some path }))
          (config_create_config_dir-Done path (λ id. contents (w.disk (entry_path path id))) sys
            (record w { config_dir = some path })
            (record { in_dir = refl; root = root; here = here; files = λ id. refl }))
          (λ r w' d. (d.0.root, d.0.here)))
        (create_dir-Keeps sys (λ v. v.no_preflight ≡ w.no_preflight) (λ v n d e i. i)
          (record w { config_dir = some path }) refl)

  abbrev pub After : Options → Bool → List Opt → Parsed → World → Type 0
  After o was opts r w = Reads build openable o was opts r w × Tops w

  pub parse_opt-After :
      (o : Options) (opt : Opt) (w : World)
      → Tops w
      → Ensures (After o w.no_preflight (opt ∷ [])) (parse_opt sys os build o opt w)
  unfolding parse_opt
  parse_opt-After o help w t = (refl, t)
  parse_opt-After o version w t = (refl, t)
  parse_opt-After o unknown w t = (refl, t)
  parse_opt-After o foreground w t = (
    (
      one_read openable o foreground (record o { in_foreground = true }) (omega arith) refl refl
          refl refl refl refl refl refl,
      refl,
      refl,
    ),
    t,
  )
  parse_opt-After o verbose w t = (
    (
      one_read openable o verbose (record o { verbosity = suc o.verbosity }) (omega arith) refl refl
          refl refl refl refl refl refl,
      refl,
      refl,
    ),
    t,
  )
  parse_opt-After o (user s) w t = (
    (
      one_read openable o (user s) (record o { drop_user = some s }) (omega arith) refl refl refl
          refl refl refl refl refl,
      refl,
      refl,
    ),
    t,
  )
  parse_opt-After o no_preflight w t = (
    (
      one_read openable o no_preflight (o) (omega arith) refl refl refl refl refl refl refl refl,
      refl,
      refl,
    ),
    t,
  )
  parse_opt-After o disable_hotplug w t = (
    (
      one_read openable o disable_hotplug (record o { opt_disable_hotplug = true }) (omega arith)
          refl refl refl refl refl refl refl refl,
      refl,
      refl,
    ),
    t,
  )
  parse_opt-After o enable_exit w t = (
    (
      one_read openable o enable_exit (record o { opt_enable_exit = true }) (omega arith) refl refl
          refl refl refl refl refl refl,
      refl,
      refl,
    ),
    t,
  )
  parse_opt-After o exit w t = (
    (
      one_read openable o exit (record o { exit_signal = some sigusr1 }) (omega arith) refl refl
          refl refl refl refl refl refl,
      refl,
      refl,
    ),
    t,
  )
  parse_opt-After o force_exit w t = (
    (
      one_read openable o force_exit (record o { exit_signal = some sigterm }) (omega arith) refl
          refl refl refl refl refl refl refl,
      refl,
      refl,
    ),
    t,
  )
  parse_opt-After o udev w t = elim (Bool-cases build.have_udev) [
    | inl e ↦ rw e (
      (
        one_read openable o udev (record o { opt_disable_hotplug = true; opt_enable_exit = true })
            (omega arith) refl refl refl refl refl refl refl refl,
        refl,
        refl,
      ),
      t,
    )
    | inr e ↦ rw e (refl, t)
  ]
  parse_opt-After o systemd w t = elim (Bool-cases build.have_systemd) [
    | inl e ↦ rw e (
      (
        one_read openable o systemd (record o { opt_enable_exit = true; in_foreground = true })
            (omega arith) refl refl refl refl refl refl refl refl,
        refl,
        refl,
      ),
      t,
    )
    | inr e ↦ rw e (refl, t)
  ]
  parse_opt-After o (config_dir []) w t = (refl, t)
  parse_opt-After o (config_dir (c ∷ cs)) w t =
      Ensures-bind (config_set_config_dir sys (some (c ∷ cs))) (λ _. pure (goes_on o))
        (λ r w'. Tops w' × (w'.no_preflight ≡ w.no_preflight))
        (After o w.no_preflight (config_dir (c ∷ cs) ∷ [])) w (set_dir-Tops (c ∷ cs) w t)
        (λ r w' k. (
          (
            one_read openable o (config_dir (c ∷ cs)) o (omega arith) refl refl refl refl refl refl
                refl refl,
            k.1,
            refl,
          ),
          k.0,
        ))
  parse_opt-After o (socket []) w t = (refl, t)
  parse_opt-After o (socket (c ∷ cs)) w t = elim (Bool-cases (c == 45)) [
    | inl e ↦ rw e (rw e refl, t)
    | inr e ↦ rw e (
      (
        one_read openable o (socket (c ∷ cs)) (record o { listen_addr = some (c ∷ cs) })
            (omega arith) refl refl refl refl refl refl refl refl,
        refl,
        rw e refl,
      ),
      t,
    )
  ]
  parse_opt-After o (pidfile []) w t = (refl, t)
  parse_opt-After o (pidfile (c ∷ cs)) w t = elim (Bool-cases (c == 45)) [
    | inl e ↦ rw e (rw e refl, t)
    | inr e ↦ rw e (
      (
        one_read openable o (pidfile (c ∷ cs)) (record o { lockfile = pidfile_of (c ∷ cs) })
            (omega arith) refl refl refl refl refl refl refl refl,
        refl,
        rw e refl,
      ),
      t,
    )
  ]
  parse_opt-After o (logfile []) w t = (refl, t)
  parse_opt-After o (logfile (c ∷ cs)) w t = elim (Bool-cases o.use_logfile) [
    | inl u ↦ rw u (refl, t)
    | inr u ↦ simp (u, opens w.calls (c ∷ cs)) ((logged_to (openable (c ∷ cs)) refl, refl, refl), t)
  ]
    where
      logged_to :
          (opened : Bool)
          → openable (c ∷ cs) ≡ opened
          → Means openable o
              (logfile (c ∷ cs) ∷ [])
              (if opened then record o { use_logfile = true } else o)
      logged_to true e =
          one_read openable o (logfile (c ∷ cs)) (record o { use_logfile = true }) (omega arith)
            refl refl refl refl refl refl refl (rw e refl)
      logged_to false e =
          one_read openable o (logfile (c ∷ cs)) o (omega arith) refl refl refl refl refl refl refl
            (rw e refl)
