-- ===== src/Device/Connection/Stream.antt =====
-- The bytes of a connection in src/device.c on their way from the device to the client.
use usbmuxd.Device.Window.Bounds.{update_masks_lem}
use usbmuxd.Client.Output.Append.{memcpy_end_fits}
use usbmuxd.Device.Connection.{connection_device_input, drain_to_client}
use usbmuxd.Prelude.{
  List, Option, add32, arith, drop, eq_self, has_bit, length, length-drop, le→ltb, ltb, lt→ltb, m32,
  negsuc, pos, refl, some, suc, take, true, ℕ, ℤ, ◌++◌, ◌+◌, ◌<◌, ◌∷◌, ◌≡◌, ◌≤◌,
}
use usbmuxd.World.{
  Ensures, Ensures-bind, Ensures-mono, M, Sys, World, pure, rejoin_after, replies, reply, ret, sent,
  store_client, update, update_self, ◌>>=◌, ◌>>◌,
}
use usbmuxd.Device.State.{MuxConnection, connected, dead, ib_size, pollout}
use usbmuxd.Client.State.{
  ClientState, MuxClient, command, connected, connecting1, connecting2, dead, listen,
}
use usbmuxd.Client.Socket.{client_set_events, client_write, send_socket}
use usbmuxd.Device.Window.{update_masks}
use usbmuxd.Device.Teardown.{tell_client, update_connection}

-- A client that is asked to be polled for `events`: at once where it is connected, later where it is
-- still connecting, and not at all otherwise.
abbrev pub polled : ClientState → MuxClient → ℕ → MuxClient
polled connected k events = record k { devents = events; events = events }
polled connecting2 k events = record k { devents = events }
polled _ k events = k

-- The client is polled so, and nothing else has changed.
abbrev PolledFor : ℕ → ClientState → ℕ → World → MuxClient → World → Type 0
PolledFor p s events w k w' =
    (w'.conn ≡ w.conn) × (w'.out ≡ w.out) × (w'.client p ≡ some (polled s k events))

client_set_events_kept :
    (p events : ℕ) (w : World) (k : MuxClient)
    → w.client p ≡ some k
    → Ensures (λ r. PolledFor p k.state events w k) (client_set_events p events w)
unfolding client_set_events
client_set_events_kept p events w k e = rw (e, ◌>>=◌) (go k.state)
  where
    go :
        (s : ClientState)
        → Ensures
            (λ r. PolledFor p s events w k)
            ((elim s as (λ _. M ℤ) [
              | connected ↦ do
                store_client p (record k { devents = events; events = events })
                pure (pos 0)
              | connecting2 ↦ do store_client p (record k { devents = events }); pure (pos 0)
              | _ ↦ pure (negsuc 0)
            ])
              w)
    go command = (refl, refl, e)
    go listen = (refl, refl, e)
    go connecting1 = (refl, refl, e)
    go connecting2 = (refl, refl, update_self w.client p _)
    go connected = (refl, refl, update_self w.client p _)
    go dead = (refl, refl, e)

tell_client_kept :
    (client : Option ℕ) (p events : ℕ) (w : World) (k : MuxClient)
    → client ≡ some p
    → w.client p ≡ some k
    → Ensures (λ r. PolledFor p k.state events w k) (tell_client client events w)
unfolding tell_client
tell_client_kept client p events w k has at_p = rw has (
    Ensures-bind (client_set_events p events) _ _ _ w (client_set_events_kept p events w k at_p)
      (λ r w' kept. kept))

module _ (sys : Sys) (q p : ℕ) (w : World) (c : MuxConnection) (k : MuxClient)
    (at_q : w.conn q ≡ some c) (at_p : w.client p ≡ some k) (has : c.client ≡ some p) where
  update_connection_kept :
      Ensures
        (λ r.
          PolledFor p k.state
            (update_masks c).events
            (record w { conn = update w.conn q (some (update_masks c)) })
            k)
        (update_connection q w)
  unfolding update_connection
  update_connection_kept =
      rw (at_q, ◌>>=◌)
        (tell_client_kept c.client p (update_masks c).events
          (record w { conn = update w.conn q (some (update_masks c)) }) k has at_p)

module _ (sys : Sys) (q p : ℕ) (payload : List ℕ) (w : World) (c : MuxConnection) (k : MuxClient)
    (at_q : w.conn q ≡ some c) (at_p : w.client p ≡ some k) (has : c.client ≡ some p)
    (fits : ib_size c + length payload ≤ c.ib_capacity) (small : c.ib_capacity < m32) where
  abbrev filled : MuxConnection
  filled = record c { ib_buf = c.ib_buf ++ payload; rx_recvd = add32 c.rx_recvd (length payload) }

  abbrev stored : World
  stored = record w { conn = update w.conn q (some filled) }

  abbrev Appended : World → Type 0
  Appended w' =
      (c' : MuxConnection) × (w'.conn q ≡ some c')
      × (c'.ib_buf ≡ c.ib_buf ++ payload)
      × (c'.rx_recvd ≡ add32 c.rx_recvd (length payload))
      × (c'.tx_ack ≡ c.tx_ack)
      × (has_bit pollout c'.events ≡ ltb 0 (ib_size c'))
      × (w'.out ≡ w.out)
      × (w'.client p ≡ some (polled k.state k c'.events))

  -- The connection after its masks were updated.
  appended :
      (w' : World)
      → w'.conn ≡ update stored.conn q (some (update_masks filled))
      → w'.out ≡ w.out
      → w'.client p ≡ some (polled k.state k (update_masks filled).events)
      → Appended w'
  unfolding update_masks
  appended w' conn out told = (
    update_masks filled,
    rw conn (update_self stored.conn q _),
    refl,
    refl,
    refl,
    (update_masks_lem filled).1,
    out,
    told,
  )

  -- Data from the device for a live connection with a live client, which fits in the input buffer:
  -- the call returns; the data stands behind what the buffer held, it is counted as received, but
  -- not as acknowledged; the connection's events ask for output if and only if there is anything to
  -- write, and the client is polled for those events: at once where it is connected, later where it
  -- is still connecting; nothing is sent.
  pub connection_device_input_appends :
      Ensures
        (λ _ w'.
          (c' : MuxConnection) × (w'.conn q ≡ some c')
          × (c'.ib_buf ≡ c.ib_buf ++ payload)
          × (c'.rx_recvd ≡ add32 c.rx_recvd (length payload))
          × (c'.tx_ack ≡ c.tx_ack)
          × (has_bit pollout c'.events ≡ ltb 0 (ib_size c'))
          × (w'.out ≡ w.out)
          × (w'.client p ≡ some (polled k.state k c'.events)))
        (connection_device_input sys q payload w)
  unfolding connection_device_input
  connection_device_input_appends =
      rw
        (
          at_q,
          ◌>>=◌,
          le→ltb c.ib_capacity (add32 (ib_size c) (length payload)) room,
          memcpy_end_fits c.ib_capacity c.ib_buf payload w fits,
        )
        (Ensures-mono
          (λ r.
            PolledFor p k.state (update_masks filled).events
              (record stored { conn = update stored.conn q (some (update_masks filled)) }) k)
          (λ _ w'. Appended w') (update_connection q stored)
          (update_connection_kept sys q p stored filled k (update_self w.conn q _) at_p has)
          (λ r w' (conn, out, told). appended w' conn out told))
    where
      room : add32 (ib_size c) (length payload) ≤ c.ib_capacity
      room = omega arith

module _ (sys : Sys) (q p events n : ℕ) (w : World) (c : MuxConnection) (k : MuxClient)
    (at_q : w.conn q ≡ some c) (at_p : w.client p ≡ some k)
    (writable : has_bit pollout events ≡ true) (holds : 0 < ib_size c)
    (linked : k.state ≡ connected) (took : sys.send w.calls (ib_size c) ≡ sent (suc n)) where
  -- The store after the write.
  abbrev written : World
  written = record w { calls = suc w.calls; out = reply k.fd (take (suc n) c.ib_buf) ∷ w.out }

  client_write-took : client_write sys p c.ib_buf w ≡ ret (pos (suc n)) written
  unfolding client_write send_socket
  client_write-took = rw (at_p, ◌>>=◌, linked, took) refl

  -- The client's socket takes some bytes of the input buffer, which is not empty: the first half of
  -- `device_client_process` goes on; the bytes that the socket was given so far and those that the
  -- buffer still holds are together what they were, in order; and as many bytes are acknowledged to
  -- the device as were written.
  pub drain_to_client_delivers :
      Ensures
        (λ going w'.
          (going ≡ true)
          × ((c' : MuxConnection) × (w'.conn q ≡ some c')
              × (replies k.fd w'.out ++ c'.ib_buf ≡ replies k.fd w.out ++ c.ib_buf)
              × (c'.tx_ack ≡ add32 c.tx_ack (suc n))
              × (ib_size c' < ib_size c)))
        (drain_to_client sys q p events w)
  unfolding drain_to_client
  drain_to_client_delivers =
      rw (at_q, ◌>>=◌, writable, lt→ltb 0 (ib_size c) holds, client_write-took)
        (
          refl,
          (
            record c { tx_ack = add32 c.tx_ack (suc n); ib_buf = drop (suc n) c.ib_buf },
            update_self w.conn q _,
            rw (eq_self k.fd) (rejoin_after (replies k.fd w.out) c.ib_buf (suc n)),
            refl,
            omega (arith, length-drop (suc n) c.ib_buf),
          ),
        )
