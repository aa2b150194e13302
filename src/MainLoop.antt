-- ===== src/MainLoop.antt =====
-- main_loop and handle_signal of src/main.c. What `ppoll` answers, and the signals that come while
-- it waits, are the input of each round.
pub mod Round
use usbmuxd.Prelude.{
  Bool, List, Option, [], false, if◌then◌else◌, is_neg, ltb, negsuc, none, not, pos, some, suc,
  true, zero, ℕ, ℤ, ◌&&◌, ◌∷◌,
}
use usbmuxd.World.{M, Sys, call, count, pure, ◌>>=◌, ◌>>◌}
use usbmuxd.FdList.{
  Entry, FdList, fd_client, fd_listen, fd_usb, fdlist_add, fdlist_add_all, fdlist_reset,
}
use usbmuxd.Usb.Discover.{usb_discover, usb_get_timeout, usb_process}
use usbmuxd.Device.Listing.{device_get_count}
use usbmuxd.Device.Lifecycle.{device_check_timeouts, device_get_timeout}
use usbmuxd.Conf.Served.{daemon_conf}
use usbmuxd.Client.Accept.{client_accept, client_get_fds}
use usbmuxd.Client.Process.{client_process}

-- `should_exit`, `should_discover`, `opt_enable_exit`.
pub record Flags : Type 0 where
  pub should_exit : Bool
  pub should_discover : Bool
  pub enable_exit : Bool

pub data Signal : Type 0 where
  sigusr1 sigusr2 other_signal : Signal

-- `ppoll`: interrupted by signals, another error, no descriptor, or the events of each entry.
pub data Polled : Type 0 where
  interrupted : List Signal → Polled
  poll_failed timed_out : Polled
  ready : List ℕ → Polled

unfoldable pub handle_signal : Flags → Signal → M Flags
unfolding device_get_count
handle_signal f other_signal = pure (record f { should_exit = true })
handle_signal f sigusr1 =
    if f.enable_exit
    then (do
      count ← device_get_count true
      pure (if ltb 0 count then f else record f { should_exit = true }))
    else pure f
handle_signal f sigusr2 = pure (if f.enable_exit then record f { should_discover = true } else f)

unfoldable pub handle_signals : Flags → List Signal → M Flags
unfolding handle_signal
handle_signals f [] = pure f
handle_signals f (s ∷ ss) = do f' ← handle_signal f s; handle_signals f' ss

module _ (sys : Sys) where
  -- `usb_get_fds`.
  unfoldable pub usb_get_fds : FdList → M FdList
  unfolding fdlist_add_all
  usb_get_fds list = do
    n ← call
    elim (sys.pollfds n) [ none ↦ pure list | some fds ↦ fdlist_add_all list fd_usb fds ]

  -- The descriptors of a round: the listening socket, libusb's, the clients'.
  unfoldable pub gather_fds : ℕ → FdList → M FdList
  unfolding fdlist_add usb_get_fds client_get_fds fdlist_add_all
  gather_fds listenfd list = do
    l1 ← fdlist_add (fdlist_reset list) fd_listen listenfd 1
    l2 ← usb_get_fds l1
    fds ← client_get_fds
    fdlist_add_all l2 fd_client fds

  -- How long a round waits, in milliseconds.
  unfoldable pub round_timeout : M ℕ
  unfolding usb_get_timeout device_get_timeout
  round_timeout = do
    to ← usb_get_timeout sys
    dto ← device_get_timeout sys
    pure (if ltb dto to then dto else to)

  module _ (preflight : ℕ → M (Unit {0})) (events : M ℤ) (rounds : ℕ) (accept : M (Option ℕ)) where
    -- One entry with events; `done_usb` is whether libusb had its turn. The result is 0 or -1.
    unfoldable pub serve_entry : Entry → ℕ → Bool → M (ℤ × Bool)
    unfolding usb_process client_accept client_process daemon_conf
    serve_entry e revents done_usb = elim (e.owner) [
      | fd_usb ↦ if done_usb then pure (pos 0, true) else (do
        res ← usb_process sys preflight events rounds
        pure (if is_neg res then negsuc 0 else pos 0, true))
      | fd_listen ↦ do
        new ← accept
        res ← client_accept sys new
        pure (if is_neg res then negsuc 0 else pos 0, done_usb)
      | fd_client ↦ do client_process sys (daemon_conf sys) e.fd revents; pure (pos 0, done_usb)
    ]

    unfoldable pub serve_all : List Entry → List ℕ → Bool → M ℤ
    unfolding serve_entry
    serve_all [] revents done_usb = pure (pos 0)
    serve_all (e ∷ es) [] done_usb = pure (pos 0)
    serve_all (e ∷ es) (zero ∷ rs) done_usb = serve_all es rs done_usb
    serve_all (e ∷ es) (suc r ∷ rs) done_usb = do
      a ← serve_entry e (suc r) done_usb
      if is_neg a.0 then pure (negsuc 0) else serve_all es rs a.1

    -- After a signal: nothing where the loop is to end, a search for devices where one is asked for.
    unfoldable pub discover_if_asked : Flags → M Flags
    unfolding usb_discover
    discover_if_asked f =
        if not f.should_exit && f.should_discover
        then (do
          res ← usb_discover sys preflight events rounds
          pure (record f { should_discover = false }))
        else pure f

    -- The result ends the loop where it is negative.
    unfoldable pub after_poll : FdList → Flags → Polled → M (ℤ × Flags)
    unfolding handle_signals discover_if_asked usb_process serve_all device_check_timeouts
    after_poll list f (interrupted ss) = do
      f' ← handle_signals f ss
      f'' ← discover_if_asked f'
      pure (pos 0, f'')
    after_poll list f poll_failed = pure (pos 0, f)
    after_poll list f timed_out = do
      res ← usb_process sys preflight events rounds
      if is_neg res then pure (negsuc 0, f) else (do device_check_timeouts sys; pure (pos 0, f))
    after_poll list f (ready revents) = do res ← serve_all list.entries revents false; pure (res, f)

    -- The rounds for the answers of `ppoll`; `none` is a loop that still runs.
    unfoldable pub main_loop : ℕ → FdList → Flags → List Polled → M (Option ℤ × Flags)
    unfolding round_timeout gather_fds after_poll
    main_loop listenfd list f [] = pure (if f.should_exit then some (pos 0) else none, f)
    main_loop listenfd list f (answer ∷ answers) =
        if f.should_exit then pure (some (pos 0), f) else (do
          to ← round_timeout
          list' ← gather_fds listenfd list
          a ← after_poll list' f answer
          if is_neg a.0 then pure (some (negsuc 0), a.1) else main_loop listenfd list' a.1 answers)
