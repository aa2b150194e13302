-- ===== src/Client/Socket.antt =====
-- The calls through which src/device.c reaches a client: reading, writing, the event mask, and the
-- answer to a connection request.
pub mod Notify
use usbmuxd.Prelude.{List, Option, if◌then◌else◌, is_neg, length, negsuc, none, pos, take, ℕ, ℤ}
use usbmuxd.Client.State.{command, connected, connecting1, connecting2}
use usbmuxd.Client.Output.{send_result}
use usbmuxd.Proto.{Result, ok, result_code}
use usbmuxd.Device.State.{connected, pollout}
use usbmuxd.World.{
  M, Sys, call, emit, failed, load_client, pure, reply, sent, store_client, would_block, ◌>>=◌,
  ◌>>◌,
}

unfoldable pub client_set_events : ℕ → ℕ → M ℤ
client_set_events p events = do
  c ← load_client p
  elim c.state [
    | connected ↦ do store_client p (record c { devents = events; events = events }); pure (pos 0)
    | connecting2 ↦ do store_client p (record c { devents = events }); pure (pos 0)
    | _ ↦ pure (negsuc 0)
  ]

module _ (sys : Sys) where
  -- The bytes read; `none` is a negative result.
  unfoldable pub client_read : ℕ → ℕ → M (Option (List ℕ))
  client_read p len = do
    c ← load_client p
    elim c.state [ connected ↦ do n ← call; pure (sys.recv n len) | _ ↦ pure none ]

  -- `send`, where EAGAIN and EWOULDBLOCK count as nothing sent.
  unfoldable pub send_socket : ℕ → List ℕ → M ℤ
  send_socket fd buffer = do
    n ← call
    elim (sys.send n (length buffer)) [
      | sent k ↦ do emit (reply fd (take k buffer)); pure (pos k)
      | would_block ↦ pure (pos 0)
      | failed ↦ pure (negsuc 0)
    ]

  unfoldable pub client_write : ℕ → List ℕ → M ℤ
  unfolding send_socket
  client_write p buffer = do
    c ← load_client p
    elim c.state [ connected ↦ send_socket c.fd buffer | _ ↦ pure (negsuc 0) ]

  -- What is left to do once the result message is in the output buffer.
  unfoldable pub after_result : ℕ → Result → M ℤ
  after_result p ok = do
    c ← load_client p
    store_client p (record c { state = connecting2; events = pollout; ib_buf = none })
    pure (pos 0)
  after_result p result = do
    c ← load_client p
    store_client p (record c { state = command })
    pure (pos 0)

  unfoldable pub client_notify_connect : ℕ → Result → M ℤ
  unfolding send_result after_result result_code
  client_notify_connect p result = do
    c ← load_client p
    elim c.state [
      | connecting1 ↦ do
        r ← send_result sys p c.connect_tag (result_code result)
        if is_neg r then pure (negsuc 0) else after_result p result
      | _ ↦ pure (negsuc 0)
    ]
