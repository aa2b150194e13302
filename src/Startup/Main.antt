-- ===== src/Startup/Main.antt =====
-- main of src/main.c, from the parsed options on. `terminate` is reached with a value of `res`.
pub mod Reporting
use usbmuxd.Prelude.{List, Option, false, if◌then◌else◌, negsuc, none, pos, some, suc, ℕ, ℤ}
use usbmuxd.World.{M, Node, Sys, pure, ◌>>=◌, ◌>>◌}
use usbmuxd.FdList.{fdlist_create}
use usbmuxd.Conf.Files.{mkdir, parsed, stat}
use usbmuxd.Conf.Dir.{config_get_config_dir}
use usbmuxd.Usb.Disconnect.{usb_shutdown}
use usbmuxd.Usb.Discover.{usb_autodiscover, usb_init, usb_process_timeout}
use usbmuxd.Device.Shutdown.{device_init, device_kill_connections, device_shutdown}
use usbmuxd.Client.Accept.{client_init, client_shutdown}
use usbmuxd.Preflight.Callback.{preflight_device_remove_cb}
use usbmuxd.MainLoop.{Flags, Polled, main_loop}
use usbmuxd.Startup.Os.{Os}
use usbmuxd.Startup.Options.{
  Build, Opt, Options, Parsed, enable_exit, exits, goes_on, no_options, parse_opts,
}
use usbmuxd.Startup.Instance.{check_instance, place_lock}
use usbmuxd.Startup.Daemonize.{Daemon, Pipe, daemonize, no_pipe, notify_parent, over, runs}
use usbmuxd.Startup.Socket.{create_socket}
use usbmuxd.Startup.Privileges.{drop_privileges}

-- Before the main loop: a way to `terminate`, or the listening socket.
pub data Prepared : Type 0 where
  ends : ℤ → Prepared
  listening : ℕ → Prepared

-- A process that has ended, with its exit code and what its parent was told, or one whose main loop
-- still runs.
pub data Ended : Type 0 where
  exited : ℤ → Pipe → Ended
  running : Pipe → Ended

abbrev pub exit_code : ℤ → ℤ
exit_code (pos n) = pos 0
exit_code (negsuc n) = pos (suc n)

-- A stage that may end main, and the rest of it.
abbrev pub and_then : M (Option ℤ) → M Prepared → M Prepared
and_then stage rest =
    stage >>= λ r. elim r as (λ _. M Prepared) [ some res ↦ pure (ends res) | none ↦ rest ]

-- What the outside gives main: the events of libusb and its initialisation, a new connection, and
-- the bounds on what is followed; src/usb.c and src/main.c say what they are.
pub record Outside : Type 0 where
  pub events : M ℤ
  pub rounds : ℕ
  pub accept : M (Option ℕ)
  pub libusb_init : M ℤ
  pub hotplug : Option (M ℤ)
  pub polls : List Polled

module _ (sys : Sys) (os : Os) (outside : Outside) where
  abbrev removed_cb : ℕ → M (Unit {0})
  removed_cb p = preflight_device_remove_cb (some p)

  -- A missing directory is made; its mode and owner are left out.
  abbrev pub made_dir : List ℕ → Option ℕ → M (Option ℤ)
  made_dir path (some e) = pure (some (negsuc 0))
  made_dir path none = do
    st ← stat sys path
    pure (elim st [ none ↦ some (negsuc 0) | some n ↦ none ])

  abbrev pub checked_dir : List ℕ → Option Node → M (Option ℤ)
  checked_dir path (some n) = pure none
  checked_dir path none = do e ← mkdir sys path; made_dir path e

  unfoldable pub check_config_dir : M (Option ℤ)
  unfolding config_get_config_dir stat mkdir
  check_config_dir = do path ← config_get_config_dir; st ← stat sys path; checked_dir path st

  abbrev pub found_devices : ℕ → ℤ → Prepared
  found_devices fd (negsuc n) = ends (negsuc n)
  found_devices fd (pos n) = listening fd

  unfoldable pub init_all : ℕ → M Prepared
  unfolding client_init device_init usb_init preflight_device_remove_cb
  init_all fd = do
    client_init
    device_init
    res ←
        usb_init sys removed_cb (outside.events) (outside.rounds) (outside.libusb_init)
          (outside.hotplug)
    pure (found_devices fd res)

  abbrev pub with_socket : Options → ℤ → M Prepared
  with_socket o (negsuc n) = pure (ends (negsuc n))
  with_socket o (pos fd) =
      and_then check_config_dir (and_then (drop_privileges os o.drop_user) (init_all fd))

  unfoldable pub prepare : Options → M Prepared
  unfolding place_lock create_socket check_config_dir drop_privileges init_all
  prepare o = and_then (place_lock os o) (do fd ← create_socket os o.listen_addr; with_socket o fd)

  abbrev main_flags : Options → Flags
  main_flags o = record {
    should_exit = false;
    should_discover = false;
    enable_exit = o.opt_enable_exit;
  }

  -- The four parts are shut down in the opposite order of their dependence.
  unfoldable pub shut_down : M (Unit {0})
  unfolding device_kill_connections usb_process_timeout usb_shutdown device_shutdown client_shutdown
      preflight_device_remove_cb
  shut_down = do
    device_kill_connections sys
        (usb_process_timeout sys removed_cb (outside.events) (outside.rounds) (outside.rounds) 100)
    usb_shutdown sys removed_cb (outside.events) (outside.rounds)
    device_shutdown sys
    client_shutdown sys

  -- `none` where the main loop still runs.
  unfoldable pub serve_until_exit : Options → ℕ → M (Option ℤ)
  unfolding usb_autodiscover main_loop shut_down preflight_device_remove_cb
  serve_until_exit o fd = do
    if o.opt_disable_hotplug then usb_autodiscover sys false else pure tt
    a ←
        main_loop sys removed_cb (outside.events) (outside.rounds) (outside.accept) fd fdlist_create
          (main_flags o) (outside.polls)
    elim (a.0) [ none ↦ pure none | some res ↦ shut_down >> pure (some res) ]

  unfoldable pub terminate : Pipe → ℤ → M Ended
  unfolding notify_parent
  terminate pipe res =
      if pipe.report_to_parent
      then (do a ← notify_parent os pipe (exit_code res); pure (exited (exit_code res) a.1))
      else pure (exited (exit_code res) pipe)

  abbrev pub served : Pipe → Option ℤ → M Ended
  served pipe none = pure (running pipe)
  served pipe (some res) = terminate pipe res

  -- The waiting parent is told that the daemon is ready.
  abbrev pub when_ready : Options → ℕ → ℤ × Pipe → M Ended
  when_ready o fd (negsuc n, pipe) = terminate pipe (negsuc n)
  when_ready o fd (pos n, pipe) = do r ← serve_until_exit o fd; served pipe r

  abbrev pub tell_ready : Pipe → M (ℤ × Pipe)
  tell_ready pipe =
      if pipe.report_to_parent then notify_parent os pipe (pos 0) else pure (pos 0, pipe)

  abbrev pub after_prepare : Options → Pipe → Prepared → M Ended
  after_prepare o pipe (ends res) = terminate pipe res
  after_prepare o pipe (listening fd) = do told ← tell_ready pipe; when_ready o fd told

  abbrev pub as_daemon : Options → Daemon → M Ended
  as_daemon o (over code) = pure (exited code no_pipe)
  as_daemon o (runs (negsuc n) pipe) = terminate pipe (negsuc n)
  as_daemon o (runs (pos n) pipe) = do p ← prepare o; after_prepare o pipe p

  abbrev pub without_instance : Options → Option ℤ → M Ended
  without_instance o (some res) = terminate no_pipe res
  without_instance o none =
      if o.in_foreground
      then as_daemon o (runs (pos 0) no_pipe)
      else (do d ← daemonize os; as_daemon o d)

  unfoldable pub main_with : Options → M Ended
  unfolding check_instance daemonize prepare serve_until_exit terminate
  main_with o = do r ← check_instance os o; without_instance o r

  abbrev pub main_after : Parsed → M Ended
  main_after (exits code) = pure (exited (pos code) no_pipe)
  main_after (goes_on o) = main_with o

  unfoldable pub main : Build → List Opt → M Ended
  unfolding parse_opts main_with
  main build opts = do parsed ← parse_opts sys os build no_options opts; main_after parsed
