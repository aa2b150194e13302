-- ===== src/Tests/Clients.antt =====
-- The theorems on clients at concrete inputs.
use usbmuxd.Client.State.{MuxClient, connected, connecting1, connecting2}
use usbmuxd.World.{Ensures, World, fault, replies, update}
use usbmuxd.Proto.{message_result, ok, result_code}
use usbmuxd.Client.Socket.{client_notify_connect}
use usbmuxd.Client.Socket.Notify.{client_notify_connect_answers, next_state}
use usbmuxd.Client.Command.{handle_command}
use usbmuxd.Client.Process.{header_of, input_buffer_process, output_buffer_process}
use usbmuxd.Client.Process.WrongState.{input_buffer_process-listening, with_header}
use usbmuxd.Prelude.{
  List, [], arith, le32, length, mem, negsuc, none, pos, refl, some, ℕ, ◌++◌, ◌<◌, ◌∷◌, ◌≡◌, ◌⊎◌,
}
use usbmuxd.Tests.Fixture.{benign, caller, listener, no_conf, start}
use usbmuxd.Client.Output.{output_buffer_add_message}
use usbmuxd.Client.Output.Append.{Appended, message_bytes, output_buffer_add_message-Appended}
use usbmuxd.Client.Process.Delivery.{output_buffer_process-Delivers, pending}

output_buffer_add_message-Appended_example :
    Ensures
      (λ r w'.
        (c' : MuxClient) × (w'.client 5 ≡ some c')
        × Appended listener [] (message_bytes listener 0 5 (1 ∷ 0 ∷ 0 ∷ 0 ∷ [])) r c'
        × (w'.out ≡ []))
      (output_buffer_add_message benign 5 0 5 (1 ∷ 0 ∷ 0 ∷ 0 ∷ []) start)
output_buffer_add_message-Appended_example =
    output_buffer_add_message-Appended benign 5 0 5 (1 ∷ 0 ∷ 0 ∷ 0 ∷ []) start listener [] refl refl
      (omega arith) (omega arith) (omega arith)

output_buffer_process-Delivers_example :
    Ensures
      (λ _ w'.
        (c' : MuxClient) × (w'.client 4 ≡ some c')
        × (replies 10 w'.out ++ pending c'.ob_buf ≡ 1 ∷ 2 ∷ 3 ∷ [])
        × (length (pending c'.ob_buf) < 3)
        × ((3 ≡ length {A = ℕ} (1 ∷ 2 ∷ 3 ∷ []))
            → connecting2 ≡ connecting2
            → (c'.state ≡ connected) × (c'.events ≡ 1)))
      (output_buffer_process benign 4 start)
output_buffer_process-Delivers_example =
    output_buffer_process-Delivers benign 4 2 1 (2 ∷ 3 ∷ []) start caller refl refl refl

-- A header without payload: 16 bytes, the version 0, the message 3, and the tag 0.
abbrev bare_header : List ℕ
bare_header = 16 ∷ 0 ∷ 0 ∷ 0 ∷ 0 ∷ 0 ∷ 0 ∷ 0 ∷ 3 ∷ 0 ∷ 0 ∷ 0 ∷ 0 ∷ 0 ∷ 0 ∷ 0 ∷ []

input_buffer_process-listening_example :
    Ensures
      (λ _ w'. w'.client 5 ≡ none)
      (handle_command benign no_conf 5
        (header_of bare_header)
        []
        (with_header 5 listener bare_header start))
    × (input_buffer_process benign no_conf 5 start ≡ fault)
unfolding header_of mem
input_buffer_process-listening_example =
    input_buffer_process-listening benign no_conf 5 listener [] refl refl refl (omega arith)
      (omega arith) start 16 (0 ∷ 0 ∷ 0 ∷ 0 ∷ 0 ∷ 0 ∷ 0 ∷ 3 ∷ 0 ∷ 0 ∷ 0 ∷ 0 ∷ 0 ∷ 0 ∷ 0 ∷ []) refl
      refl refl refl (omega arith) refl refl

-- The listener as a client that waits for the answer to its request.
abbrev waiter : MuxClient
waiter = record listener { state = connecting1; connect_tag = 6 }

abbrev waiting_start : World
waiting_start = record start { client = update start.client 5 (some waiter) }

client_notify_connect_answers_example :
    Ensures
      (λ r w'.
        (k' : MuxClient) × (w'.client 5 ≡ some k')
        × (((r ≡ negsuc 0) × (k' ≡ waiter))
            ⊎ ((r ≡ pos 0)
                × (k'.ob_buf ≡ some (message_bytes waiter 6 message_result (le32 (result_code ok))))
                × (k'.state ≡ next_state ok))))
      (client_notify_connect benign 5 ok waiting_start)
client_notify_connect_answers_example =
    client_notify_connect_answers benign 5 ok waiting_start waiter [] refl refl refl refl
      (omega arith) (omega arith)
