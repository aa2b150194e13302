-- ===== src/Client/Output/Append.antt =====
-- `output_buffer_add_message` of src/client.c: the bytes that a message adds to the output buffer.
use usbmuxd.Prelude.{
  Bool-cases, List, Option, add32, ap, arith, false, inl, inr, length, length-append, le→ltb, ltb,
  lt→ltb, m32, negsuc, none, pos, refl, set_bit, some, sub32, sym, to_int, ℕ, ℤ, ◌++◌, ◌+◌, ◌<◌,
  ◌≡◌, ◌≤◌, ◌⊎◌,
}
use usbmuxd.World.{Ensures, Ensures-bind, Sys, World, ret, update_self, ◌>>=◌}
use usbmuxd.Proto.{header_bytes, header_len}
use usbmuxd.Client.State.{MuxClient}
use usbmuxd.Client.Output.{enlarged, make_room, memcpy_end, output_buffer_add_message}
use usbmuxd.Device.State.{pollout}

-- The message as the bytes of its header and its payload.
abbrev pub message_bytes : MuxClient → ℕ → ℕ → List ℕ → List ℕ
message_bytes c tag msg payload =
    header_bytes (record {
      length = add32 header_len (length payload);
      version = c.proto_version;
      message = msg;
      tag = tag;
    })
    ++ payload

-- The two ends of the call for a client whose buffer held `b`: `realloc` failed and nothing
-- changed, or the message stands behind `b` and fits in the capacity.
pub data Appended (c : MuxClient) (b bytes : List ℕ) (r : ℤ) (c' : MuxClient) : Type 0 where
  refused : r ≡ negsuc 0 → c' ≡ c → Appended c b bytes r c'
  appended :
      (capacity : ℕ)
      → r ≡ pos (length bytes)
      → c' ≡ record c {
        ob_buf = some (b ++ bytes);
        ob_capacity = capacity;
        events = set_bit pollout c.events;
      }
      → length (b ++ bytes) ≤ capacity
      → Appended c b bytes r c'

enlarged_fits :
    (capacity len : ℕ) → capacity + len + 4096 < m32 → capacity + len ≤ enlarged capacity len
unfolding enlarged
enlarged_fits capacity len h = omega arith

pub memcpy_end_fits :
    (capacity : ℕ) (dst src : List ℕ) (w : World)
    → length dst + length src ≤ capacity
    → memcpy_end capacity (some dst) src w ≡ ret (dst ++ src) w
unfolding memcpy_end
memcpy_end_fits capacity dst src w h = rw (le→ltb capacity (length dst + length src) h) refl

to_int_small : (n : ℕ) → n < 2147483648 → to_int n ≡ pos n
to_int_small n h = rw (lt→ltb n 2147483648 h) refl

module _ (sys : Sys) (p tag msg : ℕ) (payload : List ℕ) (w : World) (c : MuxClient) (b : List ℕ)
    (at_p : w.client p ≡ some c) (buf : c.ob_buf ≡ some b) (fits : length b ≤ c.ob_capacity)
    (small : c.ob_capacity + length payload + 4112 < m32)
    (short : length payload + 16 < 2147483648) where
  abbrev len : ℕ
  len = add32 header_len (length payload)

  abbrev bytes : List ℕ
  bytes = message_bytes c tag msg payload

  length-bytes : length bytes ≡ len
  unfolding header_bytes
  length-bytes = omega arith

  stored :
      (n : ℕ) (v : World)
      → length b + length bytes ≤ n
      → memcpy_end n c.ob_buf bytes v ≡ ret (b ++ bytes) v
  stored n v h = rw buf (memcpy_end_fits n b bytes v h)

  abbrev Room : Option ℕ → World → Type 0
  Room room v =
      (v.client ≡ w.client)
      × (v.out ≡ w.out)
      × ((room ≡ none) ⊎ ((n : ℕ) × (room ≡ some n) × (length b + len ≤ n)))

  room_left : ltb (sub32 c.ob_capacity (length b)) len ≡ false → length b + len ≤ c.ob_capacity
  room_left e = ground arith

  make_room-Room : Ensures Room (make_room sys c len w)
  unfolding make_room
  make_room-Room = rw buf (elim (Bool-cases (ltb (sub32 c.ob_capacity (length b)) len)) [
    | inl over ↦ elim (Bool-cases (sys.realloc w.calls)) [
      | inl grown ↦
          rw (over, grown)
            (
              refl,
              refl,
              inr (
                enlarged c.ob_capacity len,
                refl,
                omega (arith, enlarged_fits c.ob_capacity len (omega arith)),
              ),
            )
      | inr kept ↦ rw (over, kept) (refl, refl, inl refl)
    ]
    | inr room ↦ rw room (refl, refl, inr (c.ob_capacity, refl, room_left room))
  ])

  -- A message for a live client whose output buffer is in order, with sizes far from 2^32: the call
  -- returns, either with -1 where `realloc` failed and with the client as it was, or with the
  -- length of the message and the message behind what the buffer held, within the capacity.
  pub output_buffer_add_message-Appended :
      Ensures
        (λ r w'.
          (c' : MuxClient) × (w'.client p ≡ some c')
          × Appended c b (message_bytes c tag msg payload) r c'
          × (w'.out ≡ w.out))
        (output_buffer_add_message sys p tag msg payload w)
  unfolding output_buffer_add_message
  output_buffer_add_message-Appended =
      rw (at_p, ◌>>=◌)
        (Ensures-bind (make_room sys c len) _ _ _ w make_room-Room (λ room v h. elim h.2 [
          | inl e ↦ rw e (c, rw h.0 at_p, refused refl refl, h.1)
          | inr (n, e, le) ↦
              rw (e, ◌>>=◌, stored n v (omega (arith, length-bytes, le)))
                (
                  _,
                  update_self v.client p _,
                  appended n (rw (to_int_small len (omega arith)) (ap pos (sym length-bytes))) refl
                      (omega (arith, length-append b bytes, length-bytes, le)),
                  h.1,
                )
        ]))
