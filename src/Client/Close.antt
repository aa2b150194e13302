-- ===== src/Client/Close.antt =====
-- `client_close` of src/client.c.
use usbmuxd.Prelude.{if◌then◌else◌, mem, ℕ}
use usbmuxd.World.{
  M, Sys, closed, emit, free_client, load_client, pure, ret, store_client, ◌>>=◌, ◌>>◌,
}
use usbmuxd.Client.State.{connecting1, connecting2, dead}
use usbmuxd.Device.Teardown.{device_abort_connect}

module _ (sys : Sys) where
  -- A client in the middle of a connection request takes its connection with it.
  unfoldable pub abort_request : ℕ → M (Unit {0})
  unfolding device_abort_connect
  abort_request p = do
    c ← load_client p
    elim c.state [
      | connecting1 ↦ do
        store_client p (record c { state = dead })
        device_abort_connect sys c.connect_device p
      | connecting2 ↦ do
        store_client p (record c { state = dead })
        device_abort_connect sys c.connect_device p
      | _ ↦ pure tt
    ]

  -- The list is searched for the pointer first, so a second call does nothing.
  unfoldable pub client_close : ℕ → M (Unit {0})
  unfolding abort_request
  client_close p w =
      if mem w.client_list p
      then (do
        abort_request p
        c ← load_client p
        emit (closed c.fd)
        λ w'. ret tt (record w' { client_list = sys.collection_remove w'.client_list p })
        free_client p)
          w
      else ret tt w
