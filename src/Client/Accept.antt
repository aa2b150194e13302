-- ===== src/Client/Accept.antt =====
-- Clients coming, and the daemon's end, in src/client.c.
use usbmuxd.Prelude.{List, Option, [], add32, negsuc, none, pos, some, ℕ, ℤ, ◌∷◌}
use usbmuxd.World.{M, Sys, load_client, malloc, pure, ret, store_client, ◌>>=◌, ◌>>◌}
use usbmuxd.Device.State.{pollin}
use usbmuxd.Client.State.{MuxClient, cmd_buf_size, command, reply_buf_size}
use usbmuxd.Client.Close.{client_close}

-- The fields that `client_accept` sets; `memset` has cleared the others.
unfoldable pub new_client : ℕ → ℕ → MuxClient
new_client fd number = record {
  fd = fd;
  ob_buf = some [];
  ob_capacity = reply_buf_size;
  ib_buf = some [];
  ib_capacity = cmd_buf_size;
  events = pollin;
  devents = 0;
  connect_tag = 0;
  connect_device = 0;
  state = command;
  proto_version = 0;
  number = number;
  info = none;
}

-- `client_init`: no clients yet.
unfoldable pub client_init : M (Unit {0})
client_init w = ret tt (record w { client_list = [] })

-- `client_get_fds`: the descriptors and the events to poll for, in the order of the list.
unfoldable pub fds_of : List ℕ → M (List (ℕ × ℕ))
fds_of [] = pure []
fds_of (p ∷ ps) = do c ← load_client p; rest ← fds_of ps; pure ((c.fd, c.events) ∷ rest)

unfoldable pub client_get_fds : M (List (ℕ × ℕ))
unfolding fds_of
client_get_fds w = fds_of w.client_list w

module _ (sys : Sys) where
  -- The argument is the result of `accept`, `none` for an error. Socket options do not matter here.
  unfoldable pub client_accept : Option ℕ → M ℤ
  unfolding new_client
  client_accept none = pure (negsuc 0)
  client_accept (some fd) = do
    p ← malloc
    number ← λ w. ret w.client_number (record w { client_number = add32 w.client_number 1 })
    store_client p (new_client fd number)
    λ w. ret tt (record w { client_list = sys.collection_add w.client_list p })
    pure (pos fd)

  unfoldable pub close_all : List ℕ → M (Unit {0})
  unfolding client_close
  close_all [] = pure tt
  close_all (p ∷ ps) = do client_close sys p; close_all ps

  unfoldable pub client_shutdown : M (Unit {0})
  unfolding close_all
  client_shutdown w = close_all w.client_list w
