-- ===== src/Startup/Socket.antt =====
-- create_socket of src/main.c, the listening socket.
pub mod Address
use usbmuxd.Prelude.{
  Bool, List, Option, [], eq_bytes, false, if◌then◌else◌, negsuc, none, pos, some, take, true, ℕ, ℤ,
  ◌==◌, ◌∷◌,
}
use usbmuxd.Plist.{codes}
use usbmuxd.World.{M, call, pure, ◌>>=◌, ◌>>◌}
use usbmuxd.Conf.Files.{no_entry}
use usbmuxd.Startup.Os.{Family, Os, inet6}

abbrev pub socket_path : List ℕ
socket_path = codes "/var/run/usbmuxd"

-- What stands before and behind the last ':', which `strrchr` finds.
unfoldable pub last_colon : List ℕ → Option (List ℕ × List ℕ)
last_colon [] = none
last_colon (c ∷ cs) = elim (last_colon cs) [
  | some (hostname, tcp_port) ↦ some (c ∷ hostname, tcp_port)
  | none ↦ if c == 58 then some ([], cs) else none
]

-- `sizeof(bind_addr.sun_path) - 1`
abbrev pub sun_path_max : ℕ
sun_path_max = 107

module _ (os : Os) where
  -- The result of setting O_NONBLOCK is only logged.
  unfoldable pub start_listening : ℕ → M ℤ
  start_listening listenfd = do
    n ← call
    m ← call
    pure (if os.listen m then pos listenfd else negsuc 0)

  -- `IPV6_V6ONLY`, whose result is only logged.
  abbrev pub only_v6 : Family → M (Unit {0})
  only_v6 inet6 = do n ← call; pure tt
  only_v6 _ = pure tt

  abbrev pub bound : Family → ℕ → Bool → M (Option ℕ)
  bound family fd false = pure none
  bound family fd true = do only_v6 family; n ← call; pure (if os.bind n then some fd else none)

  abbrev pub with_fd : Family → Option ℕ → M (Option ℕ)
  with_fd family none = pure none
  with_fd family (some fd) = do n ← call; bound family fd (os.setsockopt n)

  abbrev pub try_address : Family → M (Option ℕ)
  try_address family = do n ← call; with_fd family (os.socket n)

  -- The first address that can be bound; a socket that cannot is closed.
  unfoldable pub first_bound : List Family → M (Option ℕ)
  first_bound [] = pure none
  first_bound (family ∷ families) = do
    fd ← try_address family
    let rest = first_bound families
    elim fd [ some fd ↦ pure (some fd) | none ↦ rest ]

  abbrev pub listen_on : Option ℕ → M ℤ
  listen_on none = pure (negsuc 0)
  listen_on (some fd) = start_listening fd

  abbrev pub on_addresses : Option (List Family) → M ℤ
  on_addresses none = pure (negsuc 0)
  on_addresses (some families) = do fd ← first_bound families; listen_on fd

  -- A path is cut to the length that `bind` takes.
  abbrev pub bind_unix : List ℕ → Option ℕ → M ℤ
  bind_unix socket_addr none = pure (negsuc 0)
  bind_unix socket_addr (some fd) = do
    n ← call
    if os.bind_path n (take sun_path_max socket_addr) then start_listening fd else pure (negsuc 0)

  abbrev pub unlinked : List ℕ → Option ℕ → M ℤ
  unlinked socket_addr e =
      if elim e [ none ↦ true | some n ↦ n == no_entry ]
      then (do n ← call; bind_unix socket_addr (os.socket n))
      else pure (negsuc 0)

  abbrev pub unlink_and_bind : List ℕ → M ℤ
  unlink_and_bind socket_addr = do n ← call; unlinked socket_addr (os.unlink n socket_addr)

  abbrev pub checked_kind : List ℕ → Option Bool → M ℤ
  checked_kind socket_addr (some false) = pure (negsuc 0)
  checked_kind socket_addr _ = unlink_and_bind socket_addr

  -- A file that is not a socket is not replaced.
  unfoldable pub create_unix : List ℕ → M ℤ
  unfolding eq_bytes start_listening
  create_unix socket_addr =
      if eq_bytes socket_addr socket_path
      then unlink_and_bind socket_addr
      else (do n ← call; checked_kind socket_addr (os.is_socket n socket_addr))

  unfoldable pub create_tcp : List ℕ → List ℕ → M ℤ
  unfolding first_bound start_listening
  create_tcp hostname tcp_port = do n ← call; on_addresses (os.getaddrinfo n hostname tcp_port)

  abbrev pub by_address : List ℕ → Option (List ℕ × List ℕ) → M ℤ
  by_address socket_addr (some (hostname, tcp_port)) = create_tcp hostname tcp_port
  by_address socket_addr none = create_unix socket_addr

  abbrev pub socket_addr_of : Option (List ℕ) → List ℕ
  socket_addr_of none = socket_path
  socket_addr_of (some listen_addr) = listen_addr

  unfoldable pub create_socket : Option (List ℕ) → M ℤ
  unfolding last_colon create_unix create_tcp
  create_socket listen_addr =
      by_address (socket_addr_of listen_addr) (last_colon (socket_addr_of listen_addr))
