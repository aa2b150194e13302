-- ===== src/Client/Process.antt =====
-- The event loop's side of a client in src/client.c: a ready socket is read or written.
pub mod Delivery
pub mod WrongState
use usbmuxd.Prelude.{
  Bool, List, Option, [], clear_bit, drop, false, get_or, has_bit, if◌then◌else◌, length, ltb, none,
  of_le32, some, suc, take, true, zero, ℕ, ◌+◌, ◌-◌, ◌==◌, ◌∷◌,
}
use usbmuxd.World.{
  M, Sys, call, deref, emit, failed, load_client, pure, reply, sent, store_client, would_block,
  ◌>>=◌, ◌>>◌,
}
use usbmuxd.Proto.{Header, header_len}
use usbmuxd.Device.State.{connected, pollin, pollout}
use usbmuxd.Client.State.{ClientState, MuxClient, connected, connecting2}
use usbmuxd.Client.Output.{memcpy_end}
use usbmuxd.Client.Close.{client_close}
use usbmuxd.Client.Replies.{Conf}
use usbmuxd.Client.Command.{handle_command}
use usbmuxd.Device.Connection.{device_client_process}

-- The client of `client_list` with this file descriptor, if there is one.
unfoldable pub client_of_fd : ℕ → List ℕ → M (Option ℕ)
client_of_fd fd [] = pure none
client_of_fd fd (p ∷ ps) = do
  c ← load_client p
  let rest = client_of_fd fd ps
  if c.fd == fd then pure (some p) else rest

-- `struct usbmuxd_header` at the front of the input buffer.
unfoldable pub header_of : List ℕ → Header
header_of b =
    let word = λ (i : ℕ).
      of_le32 (get_or b i 0) (get_or b (i + 1) 0) (get_or b (i + 2) 0) (get_or b (i + 3) 0) in
    record { length = word 0; version = word 4; message = word 8; tag = word 12 }

-- `client->ib_size = 0`
abbrev emptied : Option (List ℕ) → Option (List ℕ)
emptied none = none
emptied (some b) = some []

unfoldable pub forget_input : ℕ → M (Unit {0})
forget_input p = do c ← load_client p; store_client p (record c { ib_buf = emptied c.ib_buf })

-- The output buffer is empty. A client whose request to connect was answered is switched to the
-- connection, and the buffer is freed.
unfoldable pub drained : ClientState → MuxClient → MuxClient
drained connecting2 c = record c { state = connected; events = c.devents; ob_buf = none }
drained _ c = record c { ob_buf = some []; events = clear_bit pollout c.events }

-- What is left of the output buffer when `send` took so many bytes.
unfoldable pub after_send : ℕ → MuxClient → List ℕ → MuxClient
unfolding drained
after_send n c b =
    if n == length b then drained c.state c else record c { ob_buf = some (drop n b) }

module _ (sys : Sys) where
  -- A `recv` of so many bytes behind those of the input buffer: false if it closed the client.
  unfoldable pub receive : ℕ → ℕ → M Bool
  unfolding memcpy_end client_close
  receive p want = do
    c ← load_client p
    n ← call
    elim (sys.recv n want) [
      | none ↦ do client_close sys p; pure false
      | some [] ↦ do client_close sys p; pure false
      | some (x ∷ got) ↦ do
        b ← memcpy_end c.ib_capacity c.ib_buf (x ∷ got)
        store_client p (record c { ib_buf = some b })
        pure true
    ]

  unfoldable pub output_buffer_process : ℕ → M (Unit {0})
  unfolding after_send client_close
  output_buffer_process p = do
    c ← load_client p
    elim c.ob_buf [
      | none ↦ store_client p (record c { events = clear_bit pollout c.events })
      | some [] ↦ store_client p (record c { events = clear_bit pollout c.events })
      | some (x ∷ b) ↦ do
        n ← call
        elim (sys.send n (suc (length b))) [
          | sent zero ↦ client_close sys p
          | sent (suc k) ↦ do
            emit (reply c.fd (take (suc k) (x ∷ b)))
            store_client p (after_send (suc k) c (x ∷ b))
          | would_block ↦ client_close sys p
          | failed ↦ client_close sys p
        ]
    ]

module _ (sys : Sys) (conf : Conf) where
  -- A message that is complete.
  unfoldable pub finish_command : ℕ → Header → List ℕ → M (Unit {0})
  unfolding handle_command forget_input
  finish_command p hdr b = do
    handle_command sys conf p hdr (take (hdr.length - header_len) (drop header_len b))
    forget_input p

  -- The part of the function behind the header; `did_read` tells that the header came just now.
  unfoldable pub process_body : ℕ → Bool → M (Unit {0})
  unfolding header_of receive finish_command client_close
  process_body p did_read = do
    c ← load_client p
    b ← deref c.ib_buf
    let hdr = header_of b
    if ltb c.ib_capacity hdr.length
        then client_close sys p
        else if ltb hdr.length header_len
        then client_close sys p
        else if ltb (length b) hdr.length
        then (if did_read then pure tt else (do
          going ← receive sys p (hdr.length - length b)
          if going
              then (do
                c' ← load_client p
                b' ← deref c'.ib_buf
                if ltb (length b') hdr.length then pure tt else finish_command p hdr b')
              else pure tt))
        else finish_command p hdr b

  unfoldable pub input_buffer_process : ℕ → M (Unit {0})
  unfolding process_body receive
  input_buffer_process p = do
    c ← load_client p
    b ← deref c.ib_buf
    if ltb (length b) header_len
        then (do
          going ← receive sys p (header_len - length b)
          if going
              then (do
                c' ← load_client p
                b' ← deref c'.ib_buf
                if ltb (length b') header_len then pure tt else process_body p true)
              else pure tt)
        else process_body p false

  unfoldable pub client_process : ℕ → ℕ → M (Unit {0})
  unfolding client_of_fd input_buffer_process output_buffer_process device_client_process
  client_process fd events w =
      (do
        found ← client_of_fd fd w.client_list
        elim found [
          | none ↦ pure tt
          | some p ↦ do
            c ← load_client p
            elim c.state [
              | connected ↦ device_client_process sys c.connect_device p events
              | _ ↦
                  if has_bit pollin events
                  then input_buffer_process p
                  else if has_bit pollout events
                  then output_buffer_process sys p
                  else pure tt
            ]
        ])
        w
