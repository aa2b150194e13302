-- ===== src/Client/Notices/Halting.antt =====
-- client_device_add of src/client.c comes to an end, for any clients and devices.
use usbmuxd.Prelude.{
  Bool, Bool-cases, List, Option, [], add32, inl, inr, length, ltb, negsuc, none, set_bit, some,
  sub32, suc, to_int, ℕ, ℤ, ◌++◌, ◌+◌, ◌==◌, ◌∷◌,
}
use usbmuxd.World.{
  Halts, Halts-bind, M, Sys, World, deref, load_client, load_dev, pure, store_client, store_dev,
  ◌>>=◌, ◌>>◌,
}
use usbmuxd.Plist.{Plist}
use usbmuxd.Proto.{header_bytes, header_len, message_device_add, message_plist}
use usbmuxd.Client.State.{ClientState, MuxClient, listen}
use usbmuxd.Client.Output.{make_room, memcpy_end, ob_size, output_buffer_add_message, send_plist}
use usbmuxd.Client.Notices.{
  by_version, client_device_add, create_device_attached_plist, device_record, send_device_add,
  to_listeners,
}
use usbmuxd.Device.State.{DeviceInfo, MuxDevice, pollout}
use usbmuxd.Device.Find.{find_dev, get_mux_device_for_id}
use usbmuxd.Device.Listing.{change_dev, device_set_preflight_cb_data, device_set_visible}

-- For a predicate that does not look at devices, clients, and the number of calls.
module _ (sys : Sys) (I : World → Type 0)
    (ignores : (w : World) (n : ℕ) (d : ℕ → Option MuxDevice) (c : ℕ → Option MuxClient)
      → I w
      → I (record w { calls = n; dev = d; client = c })) where
  deref-Halts : {A : Type 0} (o : Option A) → Halts I (deref o)
  deref-Halts none w i = tt
  deref-Halts (some a) w i = i

  load_dev-Halts : (p : ℕ) → Halts I (load_dev p)
  load_dev-Halts p w i = deref-Halts (w.dev p) w i

  load_client-Halts : (p : ℕ) → Halts I (load_client p)
  load_client-Halts p w i = deref-Halts (w.client p) w i

  find_dev-Halts : (test : MuxDevice → Bool) (ps : List ℕ) → Halts I (find_dev test ps)
  unfolding find_dev
  find_dev-Halts test [] w i = i
  find_dev-Halts test (p ∷ ps) w i =
      Halts-bind I (load_dev p) _ (load_dev-Halts p)
        (λ d w' i'. elim (Bool-cases (test d)) [
          | inl e ↦ rw e i'
          | inr e ↦ rw e (find_dev-Halts test ps w' i')
        ])
        w i

  change_found-Halts :
      (f : MuxDevice → MuxDevice) (o : Option ℕ)
      → Halts I (elim o as (λ _. M (Unit {0})) [
        | none ↦ pure tt
        | some p ↦ do d ← load_dev p; store_dev p (f d)
      ])
  change_found-Halts f none w i = i
  change_found-Halts f (some p) w i =
      Halts-bind I (load_dev p) (λ d. store_dev p (f d)) (load_dev-Halts p)
        (λ d w' i'. ignores w' w'.calls _ w'.client i') w i

  pub change_dev-Halts : (id : ℕ) (f : MuxDevice → MuxDevice) → Halts I (change_dev id f)
  unfolding change_dev get_mux_device_for_id
  change_dev-Halts id f =
      Halts-bind I (get_mux_device_for_id id) _
        (λ w i. find_dev-Halts (λ d. d.id == id) w.device_list w i) (change_found-Halts f)

  pub device_set_preflight_cb_data-Halts :
      (id : ℕ) (cb : Option ℕ) → Halts I (device_set_preflight_cb_data id cb)
  unfolding device_set_preflight_cb_data
  device_set_preflight_cb_data-Halts id cb = change_dev-Halts id _

  make_room-Halts : (c : MuxClient) (len : ℕ) → Halts I (make_room sys c len)
  unfolding make_room
  make_room-Halts c len w i = elim (Bool-cases (ltb (sub32 c.ob_capacity (ob_size c)) len)) [
    | inl over ↦ elim (Bool-cases (sys.realloc w.calls)) [
      | inl e ↦ rw (over, e) (ignores w (suc w.calls) w.dev w.client i)
      | inr e ↦ rw (over, e) (ignores w (suc w.calls) w.dev w.client i)
    ]
    | inr room ↦ rw room i
  ]

  memcpy_end-Halts :
      (capacity : ℕ) (dst : Option (List ℕ)) (src : List ℕ) → Halts I (memcpy_end capacity dst src)
  unfolding memcpy_end
  memcpy_end-Halts capacity none src w i = tt
  memcpy_end-Halts capacity (some dst) src w i =
      elim (Bool-cases (ltb capacity (length dst + length src))) [
        | inl e ↦ rw e tt
        | inr e ↦ rw e i
      ]

  module _ (p tag msg : ℕ) (payload : List ℕ) (c : MuxClient) where
    abbrev grow : Option ℕ → M ℤ
    grow room = elim room [
      | none ↦ pure (negsuc 0)
      | some capacity ↦ do
        b ← memcpy_end capacity c.ob_buf (
            header_bytes (record {
              length = add32 header_len (length payload);
              version = c.proto_version;
              message = msg;
              tag = tag;
            })
            ++ payload)
        store_client p (record c {
          ob_buf = some b;
          ob_capacity = capacity;
          events = set_bit pollout c.events;
        })
        pure (to_int (add32 header_len (length payload)))
    ]

    grow-Halts : (room : Option ℕ) → Halts I (grow room)
    grow-Halts none w i = i
    grow-Halts (some capacity) w i =
        Halts-bind I (memcpy_end capacity c.ob_buf _) _ (memcpy_end-Halts capacity c.ob_buf _)
          (λ b w' i'. ignores w' w'.calls w'.dev _ i') w i

  add_message-Halts :
      (p tag msg : ℕ) (payload : List ℕ) → Halts I (output_buffer_add_message sys p tag msg payload)
  unfolding output_buffer_add_message
  add_message-Halts p tag msg payload = Halts-bind I (load_client p) _ (load_client-Halts p) (λ c.
      Halts-bind I (make_room sys c (add32 header_len (length payload))) _
        (make_room-Halts c (add32 header_len (length payload))) (grow-Halts p tag msg payload c))

  send_plist-Halts : (p tag : ℕ) (plist : Plist) → Halts I (send_plist sys p tag plist)
  unfolding send_plist
  send_plist-Halts p tag plist = go (sys.to_xml plist)
    where
      go :
          (o : Option (List ℕ))
          → Halts I (elim o as (λ _. M ℤ) [
            | none ↦ pure (negsuc 0)
            | some xml ↦ output_buffer_add_message sys p tag message_plist xml
          ])
      go none w i = i
      go (some xml) w i = add_message-Halts p tag message_plist xml w i

  by_version-Halts :
      (p tag : ℕ) (plist : Plist) (msg : ℕ) (payload : List ℕ)
      → Halts I (by_version sys p tag plist msg payload)
  by_version-Halts p tag plist msg payload =
      Halts-bind I (load_client p) _ (load_client-Halts p) (λ c w i.
        elim (Bool-cases (c.proto_version == 1)) [
          | inl e ↦ rw e (send_plist-Halts p tag plist w i)
          | inr e ↦ rw e (add_message-Halts p tag msg payload w i)
        ])

  send_device_add-Halts : (p : ℕ) (info : DeviceInfo) → Halts I (send_device_add sys p info)
  unfolding send_device_add
  send_device_add-Halts p info =
      Halts-bind I (deref info.serial) _ (deref-Halts info.serial) (λ serial.
        by_version-Halts p 0 (create_device_attached_plist info serial) message_device_add
          (device_record info serial))

  to_listeners-Halts :
      (send : ℕ → M ℤ) (ps : List ℕ)
      → ((p : ℕ) → Halts I (send p))
      → Halts I (to_listeners sys send ps)
  unfolding to_listeners
  to_listeners-Halts send [] each w i = i
  to_listeners-Halts send (p ∷ ps) each w i =
      Halts-bind I (load_client p) _ (load_client-Halts p)
        (λ c. Halts-bind I _ _ (told c.state) (λ u. to_listeners-Halts send ps each)) w i
    where
      sent_to : Halts I (send p >>= λ r. pure tt)
      sent_to = Halts-bind I (send p) (λ r. pure tt) (each p) (λ r w' i'. i')

      told :
          (s : ClientState)
          → Halts I (elim s as (λ _. M (Unit {0})) [ listen ↦ do send p; pure tt | _ ↦ pure tt ])
      told listen w' i' = sent_to w' i'
      told _ w' i' = i'

  -- Whatever the clients and the devices are, client_device_add is in no loop for ever, and what
  -- does not look at devices, clients and calls holds after it.
  pub client_device_add-Halts : (info : DeviceInfo) → Halts I (client_device_add sys info)
  unfolding client_device_add device_set_visible
  client_device_add-Halts info =
      Halts-bind I (device_set_visible info.id) _ (change_dev-Halts info.id _) (λ u w i.
        to_listeners-Halts (λ p. send_device_add sys p info) w.client_list
          (λ p. send_device_add-Halts p info) w i)
