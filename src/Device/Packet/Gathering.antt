-- ===== src/Device/Packet/Gathering.antt =====
-- Packets that come in several transfers: src/device.c puts them together again.
use usbmuxd.Prelude.{
  List, [], ap, append_assoc, arith, get_or-append_left, length, length-append, nil_of_length, sym,
  ℕ, ◌++◌, ◌+◌, ◌<◌, ◌∙◌, ◌∷◌, ◌≡◌, ◌≢◌, ◌≤◌,
}
use usbmuxd.Device.State.{MuxDevice, dev_mru, pktlen, usb_mru}
use usbmuxd.Device.Packet.{Gathered, dropped, gather, mux_length, waiting, whole}

module _ (stale : ℕ → ℕ) where
  -- What `gather` says of one transfer.
  abbrev pub Explained : MuxDevice → List ℕ → Gathered → Type 0
  Explained d buffer (dropped d') = (d'.pktbuf ≡ []) × (dev_mru < pktlen d + length buffer)
  Explained d buffer (waiting d') =
      (d'.pktbuf ≡ d.pktbuf ++ buffer)
      × (length buffer ≡ usb_mru)
      × (pktlen d' ≢ mux_length stale d'.pktbuf)
      × (pktlen d' ≤ dev_mru)
  Explained d buffer (whole d' bytes) =
      (d'.pktbuf ≡ []) × (bytes ≡ d.pktbuf ++ buffer) × (length bytes ≤ dev_mru)

  -- With at most DEV_MRU bytes in the buffer so far, no transfer of at most USB_MRU bytes overruns
  -- the packet buffer: what waits, and what is handed on, has at most DEV_MRU bytes; and no byte is
  -- lost or made up: it is the buffer so far with the transfer behind it. A packet waits only after
  -- a transfer of USB_MRU bytes, while it has not the length that its header gives; it is given up
  -- only where it would outgrow the buffer of DEV_MRU bytes.
  pub gather-Explained :
      (d : MuxDevice) (buffer : List ℕ)
      → length buffer ≤ usb_mru
      → pktlen d ≤ dev_mru
      → Explained d buffer (gather stale d buffer)
  unfolding gather
  gather-Explained d buffer small fits =
      ground (arith, length-append d.pktbuf buffer, nil_of_length d.pktbuf)

  -- The transfers of one packet, until it is handed on or given up.
  pub feed : MuxDevice → List (List ℕ) → Gathered
  feed d [] = waiting d
  feed d (b ∷ bs) = elim (gather stale d b) [
    | waiting d' ↦ feed d' bs
    | dropped d' ↦ dropped d'
    | whole d' bytes ↦ whole d' bytes
  ]

  -- The transfers of a packet: full ones of USB_MRU bytes, and the last, which is not empty.
  abbrev pub Full : List (List ℕ) → Type 0
  Full [] = Unit {0}
  Full (b ∷ bs) = (length b ≡ usb_mru) × Full bs

  abbrev pub joined : List (List ℕ) → List ℕ → List ℕ
  joined [] last = last
  joined (b ∷ bs) last = b ++ joined bs last

  mux_length-append :
      (xs ys : List ℕ) → 8 ≤ length xs → mux_length stale (xs ++ ys) ≡ mux_length stale xs
  unfolding mux_length
  mux_length-append xs ys h = rw (
    get_or-append_left xs ys 4 (stale 4) (omega arith),
    get_or-append_left xs ys 5 (stale 5) (omega arith),
    get_or-append_left xs ys 6 (stale 6) (omega arith),
    get_or-append_left xs ys 7 (stale 7) (omega arith),
  )

  length-joined : (bs : List (List ℕ)) (last : List ℕ) → length last ≤ length (joined bs last)
  length-joined [] last = omega arith
  length-joined (b ∷ bs) last =
      omega (arith, length-append b (joined bs last), length-joined bs last)

  -- From the second transfer on.
  feed-rest :
      (bs : List (List ℕ)) (last : List ℕ) (d : MuxDevice)
      → usb_mru ≤ pktlen d
      → Full bs
      → 0 < length last
      → length last ≤ usb_mru
      → let pkt = d.pktbuf ++ joined bs last in
        length pkt ≤ dev_mru
        → mux_length stale d.pktbuf ≡ length pkt
        → feed d (bs ++ last ∷ []) ≡ whole (record d { pktbuf = [] }) pkt
  unfolding feed gather
  feed-rest [] last d long full some_left small fits says =
      ground (arith, length-append d.pktbuf last, mux_length-append d.pktbuf last)
  feed-rest (b ∷ bs) last d long full some_left small fits says =
      rw (waits, feed)
        (feed-rest bs last step (omega (arith, length-append d.pktbuf b)) full.1 some_left small
            (rw same fits)
            (mux_length-append d.pktbuf b (omega arith) ∙ says ∙ ap length (sym same))
          ∙ ap (whole (record d { pktbuf = [] })) same)
    where
      step : MuxDevice
      step = record d { pktbuf = d.pktbuf ++ b }

      same : (d.pktbuf ++ b) ++ joined bs last ≡ d.pktbuf ++ (b ++ joined bs last)
      same = append_assoc d.pktbuf b (joined bs last)

      waits : gather stale d b ≡ waiting step
      waits = ground (
        arith,
        length-append d.pktbuf b,
        length-append d.pktbuf (b ++ joined bs last),
        length-append b (joined bs last),
        length-joined bs last,
        mux_length-append d.pktbuf b,
      )

  -- A packet of at most DEV_MRU bytes, cut into full transfers and a last one that is not empty,
  -- is handed on whole after the last transfer, if its header gives its length: a device with an
  -- empty packet buffer gathers exactly the packet, and its buffer is empty again.
  pub feed-whole :
      (bs : List (List ℕ)) (last : List ℕ) (d : MuxDevice)
      → d.pktbuf ≡ []
      → Full bs
      → 0 < length last
      → length last ≤ usb_mru
      → length (joined bs last) ≤ dev_mru
      → mux_length stale (joined bs last) ≡ length (joined bs last)
      → feed d (bs ++ last ∷ []) ≡ whole d (joined bs last)
  unfolding feed gather
  feed-whole [] last d empty full some_left small fits says = ground arith
  feed-whole (b ∷ bs) last d empty full some_left small fits says =
      rw (waits, feed)
        (feed-rest bs last step (omega (arith, full.0)) full.1 some_left small fits at_front ∙ λ i.
          whole (record d { pktbuf = sym empty i }) (b ++ joined bs last))
    where
      step : MuxDevice
      step = record d { pktbuf = b }

      long : usb_mru < length (b ++ joined bs last)
      long = omega (arith, length-append b (joined bs last), length-joined bs last)

      at_front : mux_length stale b ≡ length (b ++ joined bs last)
      at_front = sym (mux_length-append b (joined bs last) (omega arith)) ∙ says

      waits : gather stale d b ≡ waiting step
      waits = ground (arith, at_front, long)
