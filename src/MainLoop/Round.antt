-- ===== src/MainLoop/Round.antt =====
-- What a round of main_loop of src/main.c polls.
use usbmuxd.Prelude.{
  List, Option, [], ap, append-nil, append_assoc, none, refl, some, suc, sym, ℕ, ◌++◌, ◌∙◌, ◌∷◌,
  ◌≡◌,
}
use usbmuxd.World.{Ensures, Ensures-bind, Ensures-mono, M, Sys, World, pure, ret, ◌>>=◌}
use usbmuxd.Client.State.{MuxClient}
use usbmuxd.Client.Accept.{client_get_fds, fds_of}
use usbmuxd.FdList.{FdList, fd_client, fd_listen, fd_usb, fdlist_add, fdlist_add_all, fdlist_reset}
use usbmuxd.FdList.Kept.{
  Extends, WellFormed, fdlist_add-Extends, fdlist_add_all-Extends, fdlist_reset-WellFormed, owned,
}
use usbmuxd.MainLoop.{gather_fds, usb_get_fds}

-- The clients of the list are live, with those descriptors and events.
pub data Clients (client : ℕ → Option MuxClient) : List ℕ → List (ℕ × ℕ) → Type 0 where
  none_left : Clients client [] []
  one_more :
      (p : ℕ) (ps : List ℕ) (c : MuxClient) (fds : List (ℕ × ℕ))
      → client p ≡ some c
      → Clients client ps fds
      → Clients client (p ∷ ps) ((c.fd, c.events) ∷ fds)

abbrev pub usb_fds : Option (List (ℕ × ℕ)) → List (ℕ × ℕ)
usb_fds none = []
usb_fds (some fds) = fds

fds_of-Clients :
    (w : World) (ps : List ℕ) (fds : List (ℕ × ℕ))
    → Clients w.client ps fds
    → fds_of ps w ≡ ret fds w
unfolding fds_of
fds_of-Clients w _ _ none_left = refl
fds_of-Clients w _ _ (one_more p ps c fds at rest) =
    rw (at, ◌>>=◌, fds_of-Clients w ps fds rest) refl

module _ (sys : Sys) (listenfd : ℕ) (list : FdList) (fds : List (ℕ × ℕ)) where
  -- In order, without more or less: the listening socket for input, libusb's descriptors, and each
  -- client with the events that it waits for.
  abbrev pub PollsAll : ℕ → FdList → World → Type 0
  PollsAll n l w =
      WellFormed l
      × (l.entries
          ≡ owned fd_listen ((listenfd, 1) ∷ [])
            ++ (owned fd_usb (usb_fds (sys.pollfds n)) ++ owned fd_client fds))

  usb_get_fds-Extends :
      (o : Option (List (ℕ × ℕ))) (l : FdList) (w : World)
      → WellFormed l
      → Ensures
          (Extends l (owned fd_usb (usb_fds o)) w)
          ((elim o as (λ _. M FdList) [ none ↦ pure l | some us ↦ fdlist_add_all l fd_usb us ]) w)
  usb_get_fds-Extends none l w h = (h, sym (append-nil l.entries), refl)
  usb_get_fds-Extends (some us) l w h = fdlist_add_all-Extends fd_usb us l w h

  client_get_fds-PollsAll :
      (n : ℕ) (l : FdList) (w : World)
      → WellFormed l
      → l.entries ≡ owned fd_listen ((listenfd, 1) ∷ []) ++ owned fd_usb (usb_fds (sys.pollfds n))
      → Clients w.client w.client_list fds
      → Ensures (PollsAll n) ((client_get_fds >>= fdlist_add_all l fd_client) w)
  unfolding client_get_fds
  client_get_fds-PollsAll n l w h e cs =
      rw (◌>>=◌, fds_of-Clients w w.client_list fds cs)
        (Ensures-mono (Extends l (owned fd_client fds) w) (PollsAll n)
          (fdlist_add_all l fd_client fds w) (fdlist_add_all-Extends fd_client fds l w h)
          (λ l' w' k. (
            k.0,
            k.1
                ∙ ap (λ xs. xs ++ owned fd_client fds) e
                ∙ append_assoc (owned fd_listen ((listenfd, 1) ∷ []))
                    (owned fd_usb (usb_fds (sys.pollfds n))) (owned fd_client fds),
          )))

  usb_get_fds-PollsAll :
      (l : FdList) (w : World)
      → WellFormed l
      → l.entries ≡ owned fd_listen ((listenfd, 1) ∷ [])
      → Clients w.client w.client_list fds
      → Ensures
          (PollsAll w.calls)
          ((usb_get_fds sys l >>= λ l2. client_get_fds >>= fdlist_add_all l2 fd_client) w)
  unfolding usb_get_fds
  usb_get_fds-PollsAll l w h e cs =
      Ensures-bind
        (λ w'.
          (elim (sys.pollfds w.calls) as (λ _. M FdList) [
            | none ↦ pure l
            | some us ↦ fdlist_add_all l fd_usb us
          ])
            (record w { calls = suc w.calls }))
        (λ l2. client_get_fds >>= fdlist_add_all l2 fd_client)
        (Extends l (owned fd_usb (usb_fds (sys.pollfds w.calls)))
          (record w { calls = suc w.calls }))
        (PollsAll w.calls) w
        (usb_get_fds-Extends (sys.pollfds w.calls) l (record w { calls = suc w.calls }) h)
        (λ l2 w2 k. rw k.2 (
          client_get_fds-PollsAll w.calls l2 (record w { calls = suc w.calls }) k.0
            (k.1 ∙ ap (λ xs. xs ++ owned fd_usb (usb_fds (sys.pollfds w.calls))) e) cs))

  -- With every listed client live, a round polls the listening socket for input, then libusb's
  -- descriptors, then each client for its events, in order and nothing else; and no entry is
  -- written behind the arrays, which stay in order for the next round.
  pub gather_fds-PollsAll :
      (w : World)
      → WellFormed list
      → Clients w.client w.client_list fds
      → Ensures (PollsAll w.calls) (gather_fds sys listenfd list w)
  unfolding gather_fds
  gather_fds-PollsAll w h cs =
      Ensures-bind (fdlist_add (fdlist_reset list) fd_listen listenfd 1)
        (λ l. usb_get_fds sys l >>= λ l2. client_get_fds >>= fdlist_add_all l2 fd_client)
        (Extends (fdlist_reset list) (owned fd_listen ((listenfd, 1) ∷ [])) w) (PollsAll w.calls) w
        (fdlist_add-Extends (fdlist_reset list) fd_listen listenfd 1 w
          (fdlist_reset-WellFormed list h))
        (λ l w' k. rw k.2 (usb_get_fds-PollsAll l w k.0 k.1 cs))
