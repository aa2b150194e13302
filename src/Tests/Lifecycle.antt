-- ===== src/Tests/Lifecycle.antt =====
-- The theorems on the life of a connection at concrete inputs.
use usbmuxd.Usb.Transfer.Packets.{Ready}
use usbmuxd.Prelude.{[], arith, mem, none, pos, refl, some, ℕ, ◌+◌, ◌∷◌, ◌≡◌, ◌≤◌, ◌⊎◌}
use usbmuxd.World.{Ensures, World, ret, update}
use usbmuxd.Proto.{bad_dev}
use usbmuxd.Tests.Fixture.{benign, caller, phone, plug, start, stream}
use usbmuxd.Tests.Lawful.{benign-Documented}
use usbmuxd.Device.State.{MuxConnection, MuxDevice, init, proto_tcp, th_ack}
use usbmuxd.Device.Teardown.{flush_to_client}
use usbmuxd.Device.Teardown.Flush.{Alive, flush_to_client-Alive}
use usbmuxd.Device.Send.{send_tcp}
use usbmuxd.Device.Send.Outcomes.{framed}
use usbmuxd.Device.Send.Segment.{Segment, segment_header, send_tcp-Segment}
use usbmuxd.Device.Find.{find_dev, get_mux_device_for_id}
use usbmuxd.Device.Find.Sport.{took_port}
use usbmuxd.Device.Connection.{device_start_connect, negated}
use usbmuxd.Device.Connection.Start.{
  Made, NotMade, device_start_connect-outcome, device_start_connect-port_zero,
}
use usbmuxd.Device.Lifecycle.{device_get_timeout}
use usbmuxd.Device.Lifecycle.Timely.{device_get_timeout_due}

flush_to_client-Alive_example : Ensures (λ _ v. Alive 3 4 v) (flush_to_client benign 3 4 start)
flush_to_client-Alive_example =
    flush_to_client-Alive benign benign-Documented 3 4 (λ n. omega arith) start stream caller refl
      refl (omega arith)

send_tcp-Segment_example :
    Ensures
      (λ r w'.
        Segment start 3 stream 39 r w'
        × (w'.dev
            ≡ update start.dev 2 (
                some (framed phone proto_tcp 20 (segment_header stream th_ack) (1 ∷ 2 ∷ 3 ∷ [])).1))
        × (w'.client ≡ start.client)
        × (w'.device_list ≡ start.device_list)
        × (w'.client_list ≡ start.client_list)
        × Ready w' 1)
      (send_tcp benign 3 th_ack (1 ∷ 2 ∷ 3 ∷ []) start)
send_tcp-Segment_example =
    send_tcp-Segment benign 3 th_ack (1 ∷ 2 ∷ 3 ∷ []) start stream phone plug refl refl
      (omega arith) refl (omega arith)

device_start_connect-outcome_example :
    Ensures
      (λ r w'. ((r ≡ pos 0) × Made benign start 2 (3 ∷ []) 22 5 w') ⊎ NotMade start 2 (3 ∷ []) r w')
      (device_start_connect benign 1 22 5 start)
unfolding get_mux_device_for_id find_dev
device_start_connect-outcome_example =
    device_start_connect-outcome benign 1 22 5 start 2 phone refl refl (3 ∷ []) refl
      ((stream, refl), tt) (omega arith) (omega arith) plug refl (omega arith)

-- The device before its version packet.
abbrev early_start : World
early_start = record start {
  dev = update start.dev 2 (some (record phone { state = init; connections = none }));
}

-- The device whose counter of ports has gone round.
abbrev round_phone : MuxDevice
round_phone = record phone { next_sport = 0 }

abbrev round_start : World
round_start = record start { dev = update start.dev 2 (some round_phone) }

device_start_connect-port_zero_example :
    device_start_connect benign 1 22 5 round_start
    ≡ ret (negated bad_dev) (took_port round_start 2 round_phone 0)
unfolding get_mux_device_for_id find_dev mem
device_start_connect-port_zero_example =
    device_start_connect-port_zero benign 1 22 5 round_start 2 round_phone refl refl (3 ∷ []) refl
      ((stream, refl), tt) (omega arith) (omega arith) refl refl

-- The connection with an acknowledgement that is due.
abbrev owing_stream : MuxConnection
owing_stream = record stream { flags = 1 }

abbrev owing_start : World
owing_start = record start { conn = update start.conn 3 (some owing_stream) }

device_get_timeout_due_example :
    (r : ℕ) × (device_get_timeout benign owing_start
      ≡ ret r (record owing_start { calls = 1; clock = 1 }))
    × ((r ≡ 0) ⊎ (1 + r ≤ 30))
unfolding mem
device_get_timeout_due_example =
    device_get_timeout_due benign owing_start 2 3 owing_stream
      ((phone, refl, λ act. (3 ∷ [], refl, ((owing_stream, refl), tt))), tt) refl
      ((phone, 3 ∷ [], refl, refl, refl, refl), refl, refl) (omega arith) (omega arith)
