-- ===== src/Startup/Main/Reporting.antt =====
-- The parent of a daemon waits for a status: main of src/main.c tells it one, once.
use usbmuxd.Prelude.{Option, [], false, negsuc, none, pos, refl, some, ℕ, ℤ, ◌∷◌, ◌≡◌}
use usbmuxd.World.{
  Ensures, Ensures-bind, Ensures→Whenever, M, Outcome, Sys, Whenever, Whenever-after, Whenever-bind,
  World, fault, hang, pure, ret,
}
use usbmuxd.Startup.Os.{Os}
use usbmuxd.Startup.Options.{Options}
use usbmuxd.Startup.Daemonize.{Pipe, int_size, notify_parent, runs, waiting}
use usbmuxd.Startup.Main.{
  Ended, Outside, Prepared, after_prepare, as_daemon, ends, exit_code, exited, listening, prepare,
  running, serve_until_exit, served, terminate, when_ready,
}

-- Before the daemon is ready: it exits with a code, of which its parent is told.
abbrev ToldFailure : ℤ → Ended → World → Type 0
ToldFailure code (exited c pipe) w = (c ≡ code) × (pipe.told ≡ code ∷ [])
ToldFailure code (running pipe) w = ⊥

-- From then on: the parent was told 0, and nothing else.
abbrev ToldReady : Ended → World → Type 0
ToldReady (exited c pipe) w = pipe.told ≡ pos 0 ∷ []
ToldReady (running pipe) w = pipe.told ≡ pos 0 ∷ []

-- What the parent is told, by what the stages before the main loop come to.
abbrev pub ToldOnce : Outcome Prepared → Outcome Ended → Type 0
ToldOnce (ret (ends res) v) o = Ensures (ToldFailure (exit_code res)) o
ToldOnce (ret (listening fd) v) o = Whenever ToldReady o
ToldOnce fault o = o ≡ fault
ToldOnce hang o = o ≡ hang

module _ (sys : Sys) (os : Os) (outside : Outside) where
  -- The result of daemonize, then, where it has not failed, that of the stages before the loop.
  abbrev pub stages : Options → ℤ → M Prepared
  stages o (negsuc n) = pure (ends (negsuc n))
  stages o (pos n) = prepare sys os outside o

module _ (sys : Sys) (os : Os) (outside : Outside)
    (writes : (n len : ℕ) → os.write n len ≡ pos len) where
  -- The pipe after a status was written.
  abbrev Informed : ℤ → ℤ × Pipe → World → Type 0
  Informed status a w = (a.1.report_to_parent ≡ false) × (a.1.told ≡ status ∷ [])

  notify_parent-Informed :
      (status : ℤ) (w : World) → Ensures (Informed status) (notify_parent os waiting status w)
  unfolding notify_parent
  notify_parent-Informed status w = rw (writes w.calls int_size) (refl, refl)

  terminate-ToldFailure :
      (res : ℤ) (w : World)
      → Ensures (ToldFailure (exit_code res)) (terminate sys os outside waiting res w)
  unfolding terminate
  terminate-ToldFailure res w =
      Ensures-bind (notify_parent os waiting (exit_code res)) _ (Informed (exit_code res))
        (ToldFailure (exit_code res)) w (notify_parent-Informed (exit_code res) w)
        (λ a w' h. (refl, h.1))

  -- A pipe that has its status already.
  terminate-ToldReady :
      (pipe : Pipe) (res : ℤ) (w : World)
      → pipe.report_to_parent ≡ false
      → pipe.told ≡ pos 0 ∷ []
      → Whenever ToldReady (terminate sys os outside pipe res w)
  unfolding terminate
  terminate-ToldReady pipe res w quiet told = rw quiet told

  when_ready-ToldReady :
      (o : Options) (fd : ℕ) (a : ℤ × Pipe) (w : World)
      → Informed (pos 0) a w
      → Whenever ToldReady (when_ready sys os outside o fd a w)
  when_ready-ToldReady o fd (negsuc n, pipe) w h = terminate-ToldReady pipe (negsuc n) w h.0 h.1
  when_ready-ToldReady o fd (pos n, pipe) w h =
      Whenever-after (serve_until_exit sys os outside o fd) (served sys os outside pipe) ToldReady w
        served_once
    where
      served_once :
          (r : Option ℤ) (w' : World) → Whenever ToldReady (served sys os outside pipe r w')
      served_once none w' = h.1
      served_once (some res) w' = terminate-ToldReady pipe res w' h.0 h.1

  listening-ToldReady :
      (o : Options) (fd : ℕ) (w : World)
      → Whenever ToldReady (after_prepare sys os outside o waiting (listening fd) w)
  listening-ToldReady o fd w =
      Whenever-bind (notify_parent os waiting (pos 0)) (when_ready sys os outside o fd)
        (Informed (pos 0)) ToldReady w
        (Ensures→Whenever (Informed (pos 0)) _ (notify_parent-Informed (pos 0) w))
        (λ a w' h. when_ready-ToldReady o fd a w' h)

  -- Where writes to the pipe succeed, a daemon whose parent waits tells it one status and no other.
  -- If daemonize or a stage before the main loop fails, the daemon ends, and the status is the code
  -- it exits with. If none fails, the status is 0, whether the daemon ends later or not, and with
  -- whichever code.
  pub as_daemon-ToldOnce :
      (o : Options) (res : ℤ) (w : World)
      → ToldOnce (stages sys os outside o res w) (as_daemon sys os outside o (runs res waiting) w)
  as_daemon-ToldOnce o (negsuc n) w = terminate-ToldFailure (negsuc n) w
  as_daemon-ToldOnce o (pos n) w = go (prepare sys os outside o w)
    where
      go :
          (p : Outcome Prepared)
          → ToldOnce p (elim p [
            | ret a w' ↦ after_prepare sys os outside o waiting a w'
            | fault ↦ fault
            | hang ↦ hang
          ])
      go (ret (ends r) w') = terminate-ToldFailure r w'
      go (ret (listening fd) w') = listening-ToldReady o fd w'
      go fault = refl
      go hang = refl
