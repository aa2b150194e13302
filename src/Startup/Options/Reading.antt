-- ===== src/Startup/Options/Reading.antt =====
-- parse_opts of src/main.c reads the options as Startup/Options/Meaning.antt says.
use usbmuxd.Startup.Os.{Os}
use usbmuxd.Startup.Options.Meaning.{
  Means-cons, Reads, any_of, first_exit-later, first_exit-now, flag, means_no_preflight,
  nothing_read,
}
use usbmuxd.Prelude.{Bool, List, [], ap, none, refl, some, ℕ, ◌||◌, ◌∙◌, ◌∷◌, ◌≡◌}
use usbmuxd.World.{Ensures, Ensures-bind, Ensures-mono, M, Sys, World, now, pure}
use usbmuxd.Startup.Options.{Build, Opt, Options, Parsed, exits, goes_on, parse_opt, parse_opts}
use usbmuxd.Startup.Options.Turn.{After, Tops, parse_opt-After}

module _ (sys : Sys) (os : Os) (build : Build) (openable : List ℕ → Bool)
    (opens : (n : ℕ) (path : List ℕ) → os.freopen n path ≡ openable path) where
  abbrev pub Read : Options → Bool → List Opt → Parsed → World → Type 0
  Read = After sys os build openable opens

  -- Where files can be opened or not whenever it is tried, and with "/" and "." there: parse_opts
  -- returns. It exits with the code of the first option that ends the process, if there is one, and
  -- goes on if there is none; these are the request for help or the version (0), and an option that
  -- is not known, that the build does not have, or whose argument is missing, and a second log file
  -- (2). Where it goes on, a flag is set if some option sets it, whatever their order, or if it was
  -- set before, also no_preflight and whether the log goes to a file; the verbosity is counted; and
  -- of the user, the signal, the lock file and the address the last one counts.
  pub parse_opts-Reads :
      (o : Options) (opts : List Opt) (w : World)
      → Tops w
      → Ensures
          (λ r w'. Reads build openable o w.no_preflight opts r w' × Tops w')
          (parse_opts sys os build o opts w)
  unfolding parse_opts
  parse_opts-Reads o [] w t = ((nothing_read openable o, refl, refl), t)
  parse_opts-Reads o (opt ∷ opts) w t =
      Ensures-bind (parse_opt sys os build o opt) _ (Read o w.no_preflight (opt ∷ []))
        (Read o w.no_preflight (opt ∷ opts)) w
        (parse_opt-After sys os build openable opens o opt w t)
        (λ r w' a. next r w' (λ o1 t'. parse_opts-Reads o1 opts w' t') a)
    where
      next :
          (r : Parsed) (w' : World)
          → ((o1 : Options)
              → Tops w'
              → Ensures (Read o1 w'.no_preflight opts) (parse_opts sys os build o1 opts w'))
          → Read o w.no_preflight (opt ∷ []) r w'
          → Ensures (Read o w.no_preflight (opt ∷ opts)) (
              (elim r as (λ _. M Parsed) [
                | exits code ↦ pure (exits code)
                | goes_on o1 ↦ parse_opts sys os build o1 opts
              ])
                w')
      next (exits code) w' rest (now, t') =
          (first_exit-now build openable o.use_logfile opt opts code now, t')
      next (goes_on o1) w' rest ((m, skips, fine), t') =
          Ensures-mono (Read o1 w'.no_preflight opts) (Read o w.no_preflight (opt ∷ opts))
            (parse_opts sys os build o1 opts w') (rest o1 t') (λ r w'' b. joined r w'' b)
        where
          joined :
              (r : Parsed) (w'' : World)
              → Read o1 w'.no_preflight opts r w''
              → Read o w.no_preflight (opt ∷ opts) r w''
          joined (exits code) w'' (later, t'') =
              (first_exit-later build openable o o1 opt opts (some code) fine m later, t'')
          joined (goes_on o2) w'' ((k, skips', fine'), t'') = (
            (
              Means-cons openable o opt opts o1 o2 m k,
              skips'
                  ∙ ap (λ b. any_of means_no_preflight opts || b) skips
                  ∙ flag means_no_preflight opt opts w.no_preflight,
              first_exit-later build openable o o1 opt opts none fine m fine',
            ),
            t'',
          )
