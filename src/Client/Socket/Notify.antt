-- ===== src/Client/Socket/Notify.antt =====
-- `client_notify_connect` of src/client.c: the answer to a request to connect.
use usbmuxd.Prelude.{
  List, ap, arith, if◌then◌else◌, inl, inr, is_neg, le32, length, m32, negsuc, pos, refl, some, ℕ,
  ℤ, ◌++◌, ◌+◌, ◌<◌, ◌∙◌, ◌≡◌, ◌≤◌, ◌⊎◌,
}
use usbmuxd.World.{Ensures, Ensures-bind, Ensures-mono, Sys, World, pure, update_self, ◌>>=◌}
use usbmuxd.Proto.{
  Result, bad_command, bad_dev, bad_version, conn_refused, message_result, ok, result_code,
}
use usbmuxd.Client.State.{ClientState, MuxClient, command, connecting1, connecting2}
use usbmuxd.Client.Output.{output_buffer_add_message, send_result}
use usbmuxd.Client.Output.Append.{
  Appended, appended, message_bytes, output_buffer_add_message-Appended, refused,
}
use usbmuxd.Client.Socket.{after_result, client_notify_connect}

-- The state that an answer leads to.
abbrev pub next_state : Result → ClientState
next_state ok = connecting2
next_state _ = command

-- The client after the answer is in its output buffer.
abbrev Moved : ℕ → Result → MuxClient → ℤ → World → Type 0
Moved p result k r w' =
    (k' : MuxClient) × (w'.client p ≡ some k')
    × (r ≡ pos 0)
    × (k'.ob_buf ≡ k.ob_buf)
    × (k'.state ≡ next_state result)

after_result-Moved :
    (sys : Sys) (p : ℕ) (result : Result) (v : World) (k : MuxClient)
    → v.client p ≡ some k
    → Ensures (Moved p result k) (after_result sys p result v)
unfolding after_result
after_result-Moved sys p ok v k e = rw (e, ◌>>=◌) (_, update_self v.client p _, refl, refl, refl)
after_result-Moved sys p bad_command v k e =
    rw (e, ◌>>=◌) (_, update_self v.client p _, refl, refl, refl)
after_result-Moved sys p bad_dev v k e =
    rw (e, ◌>>=◌) (_, update_self v.client p _, refl, refl, refl)
after_result-Moved sys p conn_refused v k e =
    rw (e, ◌>>=◌) (_, update_self v.client p _, refl, refl, refl)
after_result-Moved sys p bad_version v k e =
    rw (e, ◌>>=◌) (_, update_self v.client p _, refl, refl, refl)

module _ (sys : Sys) (p : ℕ) (result : Result) (w : World) (k : MuxClient) (b : List ℕ)
    (at_p : w.client p ≡ some k) (waits : k.state ≡ connecting1) (binary : k.proto_version ≡ 0)
    (buf : k.ob_buf ≡ some b) (fits : length b ≤ k.ob_capacity)
    (small : k.ob_capacity + 4116 < m32) where
  abbrev message : List ℕ
  message = message_bytes k k.connect_tag message_result (le32 (result_code result))

  abbrev Answered : ℤ → World → Type 0
  Answered r w' =
      (k' : MuxClient) × (w'.client p ≡ some k')
      × (((r ≡ negsuc 0) × (k' ≡ k))
          ⊎ ((r ≡ pos 0) × (k'.ob_buf ≡ some (b ++ message)) × (k'.state ≡ next_state result)))

  send_result-binary :
      (tag code : ℕ)
      → send_result sys p tag code w
        ≡ output_buffer_add_message sys p tag message_result (le32 code) w
  unfolding send_result
  send_result-binary tag code = rw (at_p, ◌>>=◌, binary) refl

  run :
      client_notify_connect sys p result w
      ≡ (do
        r ← output_buffer_add_message sys p k.connect_tag message_result (le32 (result_code result))
        if is_neg r then pure (negsuc 0) else after_result sys p result)
          w
  unfolding client_notify_connect
  run = rw (at_p, ◌>>=◌, waits, send_result-binary k.connect_tag (result_code result)) refl

  after_message :
      (r : ℤ) (v : World) (k' : MuxClient)
      → v.client p ≡ some k'
      → Appended k b message r k'
      → Ensures Answered ((if is_neg r then pure (negsuc 0) else after_result sys p result) v)
  after_message r v k' e (refused bad same) = rw bad (k', e, inl (refl, same))
  after_message r v k' e (appended capacity size same room) = rw size (
      Ensures-mono (Moved p result k') Answered (after_result sys p result v)
        (after_result-Moved sys p result v k' e)
        (λ r' w' h. (h.0, h.1, inr (h.2, h.3 ∙ ap (λ x. x.ob_buf) same, h.4))))

  -- A client of protocol version 0 that waits for the answer to its request, with an output buffer
  -- in order: the call returns, with -1 and the client as it was where there is no memory, or with
  -- 0; then the result message with the request's tag is the last in the output buffer, and the
  -- client is on its way to the connection for RESULT_OK, and takes commands again for any other.
  pub client_notify_connect_answers :
      Ensures
        (λ r w'.
          (k' : MuxClient) × (w'.client p ≡ some k')
          × (((r ≡ negsuc 0) × (k' ≡ k))
              ⊎ ((r ≡ pos 0)
                  × (k'.ob_buf
                      ≡ some (
                          b
                          ++ message_bytes k k.connect_tag message_result
                              (le32 (result_code result))))
                  × (k'.state ≡ next_state result))))
        (client_notify_connect sys p result w)
  client_notify_connect_answers = rw run (
      Ensures-bind
        (output_buffer_add_message sys p k.connect_tag message_result (le32 (result_code result))) _
        _ Answered w
        (output_buffer_add_message-Appended sys p k.connect_tag message_result
          (le32 (result_code result)) w k b at_p buf fits (omega arith) (omega arith))
        (λ r v h. after_message r v h.0 h.1 h.2))
