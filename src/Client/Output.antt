-- ===== src/Client/Output.antt =====
-- The output buffer of a client in src/client.c: messages are appended to it, and the event loop
-- drains it to the socket.
pub mod Append
use usbmuxd.Prelude.{
  List, Option, add32, if◌then◌else◌, le32, length, ltb, negsuc, none, set_bit, some, sub32, to_int,
  ℕ, ℤ, ◌*◌, ◌++◌, ◌+◌, ◌/◌, ◌==◌,
}
use usbmuxd.Proto.{Result, header_bytes, header_len, message_plist, message_result}
use usbmuxd.Plist.{Plist, codes, dict, field, stop, string, uint}
use usbmuxd.Client.State.{MuxClient}
use usbmuxd.Device.State.{pollout, proto_version}
use usbmuxd.World.{M, Sys, call, crash, load_client, pure, store_client, ◌>>=◌, ◌>>◌}

-- `((client->ob_capacity + hdr.length + 4096) / 4096) * 4096`, in `uint32_t`.
unfoldable pub enlarged : ℕ → ℕ → ℕ
enlarged capacity len = add32 (add32 capacity len) 4096 / 4096 * 4096

-- `memcpy` behind the first bytes of a buffer of so many bytes: past its end is a fault.
unfoldable pub memcpy_end : ℕ → Option (List ℕ) → List ℕ → M (List ℕ)
memcpy_end capacity none src = crash
memcpy_end capacity (some dst) src =
    if ltb capacity (length dst + length src) then crash else pure (dst ++ src)

-- `client->ob_size`
abbrev pub ob_size : MuxClient → ℕ
ob_size c = elim c.ob_buf [ none ↦ 0 | some b ↦ length b ]

module _ (sys : Sys) where
  -- The capacity after the test for room, `none` where `realloc` fails.
  unfoldable pub make_room : MuxClient → ℕ → M (Option ℕ)
  unfolding enlarged
  make_room c len =
      if ltb (sub32 c.ob_capacity (ob_size c)) len
      then (do
        n ← call
        if sys.realloc n then pure (some (enlarged c.ob_capacity len)) else pure none)
      else pure (some c.ob_capacity)

  unfoldable pub output_buffer_add_message : ℕ → ℕ → ℕ → List ℕ → M ℤ
  unfolding make_room memcpy_end header_bytes
  output_buffer_add_message p tag msg payload = do
    c ← load_client p
    let len = add32 header_len (length payload)
    room ← make_room c len
    elim room [
      | none ↦ pure (negsuc 0)
      | some capacity ↦ do
        b ← memcpy_end capacity c.ob_buf (
            header_bytes
              (record { length = len; version = c.proto_version; message = msg; tag = tag })
            ++ payload)
        store_client p (record c {
          ob_buf = some b;
          ob_capacity = capacity;
          events = set_bit pollout c.events;
        })
        pure (to_int len)
    ]

  unfoldable pub send_plist : ℕ → ℕ → Plist → M ℤ
  send_plist p tag plist = elim (sys.to_xml plist) [
    | none ↦ pure (negsuc 0)
    | some xml ↦ output_buffer_add_message p tag message_plist xml
  ]

  unfoldable pub send_result : ℕ → ℕ → ℕ → M ℤ
  unfolding send_plist
  send_result p tag result = do
    c ← load_client p
    if c.proto_version == 1
        then send_plist p tag (
            dict (
              field (codes "MessageType") (string (codes "Result"))
                (field (codes "Number") (uint result) stop)))
        else output_buffer_add_message p tag message_result (le32 result)
