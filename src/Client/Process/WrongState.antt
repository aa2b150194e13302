-- ===== src/Client/Process/WrongState.antt =====
-- A command from a client that is not waiting for one: src/client.c closes the client and then
-- uses it again.
use usbmuxd.Client.Command.{handle_command}
use usbmuxd.Client.Process.{
  finish_command, forget_input, header_of, input_buffer_process, process_body, receive,
}
use usbmuxd.Proto.{Header, bad_command, header_bytes, header_len, message_result, result_code}
use usbmuxd.Client.Replies.{Conf}
use usbmuxd.Client.Output.Append.{memcpy_end_fits, message_bytes}
use usbmuxd.Client.Output.{make_room, memcpy_end, ob_size, output_buffer_add_message, send_result}
use usbmuxd.Prelude.{
  List, [], ap, arith, drop, false, is_neg, le32, length, le→ltb, m32, mem, none, refl, some, sub32,
  suc, take, true, ℕ, ◌++◌, ◌+◌, ◌-◌, ◌<◌, ◌∙◌, ◌∷◌, ◌≡◌, ◌≤◌,
}
use usbmuxd.World.{
  Ensures, Ensures-bind, Ensures-fault, Sys, World, fault, ret, update, update_self, ◌>>=◌,
}
use usbmuxd.Client.State.{MuxClient, listen}
use usbmuxd.Client.Close.{abort_request, client_close}

-- The store once these bytes have arrived in the empty input buffer of a client.
abbrev pub with_header : ℕ → MuxClient → List ℕ → World → World
with_header p c got w = record w {
  calls = suc w.calls;
  client = update w.client p (some (record c { ib_buf = some got }));
}

forget_input-freed : (p : ℕ) (v : World) → v.client p ≡ none → forget_input p v ≡ fault
unfolding forget_input
forget_input-freed p v gone = rw (◌>>=◌, gone) refl

module _ (sys : Sys) where
  client_close-frees :
      (p : ℕ) (v : World) (c : MuxClient)
      → v.client p ≡ some c
      → mem v.client_list p ≡ true
      → c.state ≡ listen
      → Ensures (λ _ w'. w'.client p ≡ none) (client_close sys p v)
  unfolding client_close abort_request
  client_close-frees p v c e there s =
      rw (there, e, ◌>>=◌, s, e, ◌>>=◌) (update_self v.client p none)

  module _ (p tag code : ℕ) (v : World) (c : MuxClient) (o : List ℕ) (e : v.client p ≡ some c)
      (binary : c.proto_version ≡ 0) (buf : c.ob_buf ≡ some o)
      (room : length o + 20 ≤ c.ob_capacity) (small : c.ob_capacity < m32) where
    make_room-roomy : make_room sys c 20 v ≡ ret (some c.ob_capacity) v
    unfolding make_room
    make_room-roomy = rw (size, le→ltb (sub32 c.ob_capacity (length o)) 20 (omega arith)) refl
      where
        size : ob_size c ≡ length o
        size = rw buf refl

    stored :
        (bytes : List ℕ)
        → length bytes ≡ 20
        → memcpy_end c.ob_capacity c.ob_buf bytes v ≡ ret (o ++ bytes) v
    stored bytes n = rw buf (memcpy_end_fits c.ob_capacity o bytes v (omega arith))

    -- An answer that fits in the output buffer of a client of protocol version 0.
    send_result-fits :
        Ensures
          (λ r w'.
            (is_neg r ≡ false)
            × (w'.client_list ≡ v.client_list)
            × ((c' : MuxClient) × (w'.client p ≡ some c') × (c'.state ≡ c.state)))
          (send_result sys p tag code v)
    unfolding send_result output_buffer_add_message header_bytes
    send_result-fits =
        rw (e, ◌>>=◌, binary)
          (rw (e, ◌>>=◌, make_room-roomy)
            (rw (◌>>=◌, stored (message_bytes c tag message_result (le32 code)) refl)
              (refl, refl, (_, update_self v.client p _, refl))))

module _ (sys : Sys) (conf : Conf) (p : ℕ) (c : MuxClient) (o : List ℕ) (s : c.state ≡ listen)
    (binary : c.proto_version ≡ 0) (buf : c.ob_buf ≡ some o) (room : length o + 20 ≤ c.ob_capacity)
    (small : c.ob_capacity < m32) where
  module _ (v : World) (m : List ℕ) (e : v.client p ≡ some (record c { ib_buf = some m }))
      (there : mem v.client_list p ≡ true) where
    handle_command-listening :
        (hdr : Header) (payload : List ℕ)
        → Ensures (λ _ w'. w'.client p ≡ none) (handle_command sys conf p hdr payload v)
    unfolding handle_command
    handle_command-listening hdr payload =
        rw (e, ◌>>=◌, s)
          (Ensures-bind (send_result sys p hdr.tag (result_code bad_command)) _ _ _ v
            (send_result-fits sys p hdr.tag (result_code bad_command) v _ o e binary buf room small)
            (λ r v' h. rw h.0 (
              Ensures-bind (client_close sys p) _ _ _ v'
                (client_close-frees sys p v' h.2.0 h.2.1 (ap (λ l. mem l p) h.1 ∙ there)
                  (h.2.2 ∙ s))
                (λ _ v'' gone. gone))))

    finish_command-listening :
        (hdr : Header) (b : List ℕ) → finish_command sys conf p hdr b v ≡ fault
    unfolding finish_command
    finish_command-listening hdr b =
        Ensures-fault
          (handle_command sys conf p hdr (take (hdr.length - header_len) (drop header_len b)))
          (λ _. forget_input p) (λ _ w'. w'.client p ≡ none) v (handle_command-listening hdr _)
          (λ _ v' gone. forget_input-freed p v' gone)

    process_body-listening :
        length m ≡ header_len
        → (header_of m).length ≡ header_len
        → header_len ≤ c.ib_capacity
        → process_body sys conf p true v ≡ fault
    unfolding process_body
    process_body-listening full short capacity =
        rw (e, ◌>>=◌, short, le→ltb c.ib_capacity header_len capacity, full)
          (finish_command-listening (header_of m) m)

  module _ (w : World) (x : ℕ) (got : List ℕ) (at_p : w.client p ≡ some c)
      (empty : c.ib_buf ≡ some []) (received : sys.recv w.calls header_len ≡ some (x ∷ got))
      (full : length (x ∷ got) ≡ header_len) (capacity : header_len ≤ c.ib_capacity) where
    receive-header : receive sys p header_len w ≡ ret true (with_header p c (x ∷ got) w)
    unfolding receive
    receive-header = rw (at_p, ◌>>=◌, received, copied) refl
      where
        copied : (v : World) → memcpy_end c.ib_capacity c.ib_buf (x ∷ got) v ≡ ret (x ∷ got) v
        copied v = rw empty (memcpy_end_fits c.ib_capacity [] (x ∷ got) v (omega arith))

    -- A listening client of protocol version 0, whose input buffer is empty and whose output buffer
    -- has room for 20 more bytes, sends a header without payload, which arrives in one piece:
    -- handle_command returns, and has closed and freed the client; and input_buffer_process, which
    -- calls it and then sets `ib_size` of the freed client, touches memory that it may not.
    pub input_buffer_process-listening :
        mem w.client_list p ≡ true
        → (header_of (x ∷ got)).length ≡ header_len
        → Ensures
            (λ _ w'. w'.client p ≡ none)
            (handle_command sys conf p (header_of (x ∷ got)) [] (with_header p c (x ∷ got) w))
          × (input_buffer_process sys conf p w ≡ fault)
    unfolding input_buffer_process
    input_buffer_process-listening there short = (
      handle_command-listening (with_header p c (x ∷ got) w) (x ∷ got) (update_self w.client p _)
          there (header_of (x ∷ got)) [],
      rw (at_p, ◌>>=◌, empty, receive-header, update_self w.client p, full)
          (process_body-listening (with_header p c (x ∷ got) w) (x ∷ got) (update_self w.client p _)
            there full short capacity),
    )
