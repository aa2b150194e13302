-- ===== src/Tests/Stream.antt =====
-- The theorems on the bytes of a connection at concrete inputs.
use usbmuxd.Prelude.{[], arith, has_bit, ltb, refl, some, true, ◌++◌, ◌<◌, ◌∷◌, ◌≡◌}
use usbmuxd.World.{Ensures, World, replies, update}
use usbmuxd.Tests.Fixture.{benign, caller, start, stream}
use usbmuxd.Device.State.{MuxConnection, connected, ib_size, pollout}
use usbmuxd.Client.State.{MuxClient, connected}
use usbmuxd.Device.Connection.{connection_device_input, drain_to_client}
use usbmuxd.Device.Connection.Stream.{
  connection_device_input_appends, drain_to_client_delivers, polled,
}

connection_device_input_appends_example :
    Ensures
      (λ _ w'.
        (c' : MuxConnection) × (w'.conn 3 ≡ some c')
        × (c'.ib_buf ≡ 7 ∷ 8 ∷ 9 ∷ 1 ∷ 2 ∷ [])
        × (c'.rx_recvd ≡ 2)
        × (c'.tx_ack ≡ 1)
        × (has_bit pollout c'.events ≡ ltb 0 (ib_size c'))
        × (w'.out ≡ [])
        × (w'.client 4 ≡ some (polled caller.state caller c'.events)))
      (connection_device_input benign 3 (1 ∷ 2 ∷ []) start)
connection_device_input_appends_example =
    connection_device_input_appends benign 3 4 (1 ∷ 2 ∷ []) start stream caller refl refl refl
      (omega arith) (omega arith)

-- The client in the connected state.
abbrev talker : MuxClient
talker = record caller { state = connected }

abbrev linked_start : World
linked_start = record start { client = update start.client 4 (some talker) }

drain_to_client_delivers_example :
    Ensures
      (λ going w'.
        (going ≡ true)
        × ((c' : MuxConnection) × (w'.conn 3 ≡ some c')
            × (replies 10 w'.out ++ c'.ib_buf ≡ 7 ∷ 8 ∷ 9 ∷ [])
            × (c'.tx_ack ≡ 4)
            × (ib_size c' < 3)))
      (drain_to_client benign 3 4 4 linked_start)
drain_to_client_delivers_example =
    drain_to_client_delivers benign 3 4 4 2 linked_start stream talker refl refl refl (omega arith)
      refl refl
