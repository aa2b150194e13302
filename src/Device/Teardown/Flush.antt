-- ===== src/Device/Teardown/Flush.antt =====
-- The loop in src/device.c that writes a connection's input buffer out to its client ends.
use usbmuxd.Device.Send.{mstime64}
use usbmuxd.Device.Teardown.{flush, flush_limit, flush_pause, flush_rounds, flush_to_client}
use usbmuxd.Prelude.{
  Bool, Bool-cases, List, [], arith, drop, false, has_bit, inl, inr, length, length-drop, ltb, m64,
  negsuc, pos, refl, some, sub64, sub64_ahead, suc, take, true, zero, ℕ, ℤ, ◌&&◌, ◌*◌, ◌+◌, ◌-◌,
  ◌<◌, ◌==◌, ◌≡◌, ◌≤◌, ◌⊎◌,
}
use usbmuxd.World.{
  Documented, Ensures, Ensures-bind, M, Sent, Sys, World, emit, failed, pass, pure, reply, sent,
  store_conn, update, update_self, would_block, ◌>>=◌, ◌>>◌,
}
use usbmuxd.Device.State.{MuxConnection, connected, dead, ib_size, pollout}
use usbmuxd.Client.State.{
  ClientState, MuxClient, command, connected, connecting1, connecting2, dead, listen,
}
use usbmuxd.Client.Socket.{client_write, send_socket}

-- The most milliseconds that may pass before a reading of the clock.
abbrev pub slow : ℕ
slow = 1000000

-- The connection and the client are still live.
abbrev pub Alive : ℕ → ℕ → World → Type 0
Alive q p v =
    ((c : MuxConnection) × (v.conn q ≡ some c)) × ((k : MuxClient) × (v.client p ≡ some k))

-- What a write to a client does: nothing to the objects and the clock; it fails, or takes at most
-- the bytes that it was given.
abbrev Wrote : World → List ℕ → ℤ → World → Type 0
Wrote w buf r v =
    (v.conn ≡ w.conn)
    × (v.client ≡ w.client)
    × (v.clock ≡ w.clock)
    × ((r ≡ negsuc 0) ⊎ ((n : ℕ) × (r ≡ pos n) × (n ≤ length buf)))

module _ (sys : Sys) (doc : Documented sys) (buf : List ℕ) (w : World) where
  send_socket-Wrote : (fd : ℕ) → Ensures (Wrote w buf) (send_socket sys fd buf w)
  unfolding send_socket
  send_socket-Wrote fd = go (sys.send w.calls (length buf)) refl
    where
      go :
          (s : Sent)
          → sys.send w.calls (length buf) ≡ s
          → Ensures (Wrote w buf) (
              (elim s as (λ _. M ℤ) [
                | sent k ↦ do emit (reply fd (take k buf)); pure (pos k)
                | would_block ↦ pure (pos 0)
                | failed ↦ pure (negsuc 0)
              ])
                (record w { calls = suc w.calls }))
      go (sent k) e = (refl, refl, refl, inr (k, refl, doc.send_le w.calls (length buf) k e))
      go would_block e = (refl, refl, refl, inr (0, refl, omega arith))
      go failed e = (refl, refl, refl, inl refl)

  client_write-Wrote :
      (p : ℕ) (k : MuxClient)
      → w.client p ≡ some k
      → Ensures (Wrote w buf) (client_write sys p buf w)
  unfolding client_write
  client_write-Wrote p k e = rw (e, ◌>>=◌) (go k.state)
    where
      fails : Wrote w buf (negsuc 0) w
      fails = (refl, refl, refl, inl refl)

      go :
          (s : ClientState)
          → Ensures (Wrote w buf) (
              (elim s as (λ _. M ℤ) [ connected ↦ send_socket sys k.fd buf | _ ↦ pure (negsuc 0) ])
                w)
      go command = fails
      go listen = fails
      go connecting1 = fails
      go connecting2 = fails
      go connected = send_socket-Wrote k.fd
      go dead = fails

and_right : (b : Bool) (n : ℕ) → (b && ltb 0 n) ≡ true → 0 < n
and_right b n h = ground arith

-- The rounds left are enough for the bytes left and for the wait since the last write.
abbrev Enough : ℕ → ℕ → ℕ → Type 0
Enough fuel size waited = (1030 * size + 1010 ≤ 10 * fuel + waited) × (waited ≤ 1010) × (0 < size)

module _ (sys : Sys) (doc : Documented sys) (q p : ℕ)
    (steady : (n : ℕ) → sys.elapsed n ≤ slow) where
  -- With so much fuel the loop ends, from any store in which its objects are live.
  abbrev Ends : ℕ → Type 0
  Ends fuel =
      (last : ℕ) (w : World) (c : MuxConnection) (k : MuxClient)
      → w.conn q ≡ some c
      → w.client p ≡ some k
      → last ≤ w.clock
      → Enough fuel (ib_size c) (w.clock - last)
      → w.clock + fuel * 1000010 < m64
      → Ensures (λ _ v. Alive q p v) (flush sys fuel q p last w)

  module _ (fuel last : ℕ) (v : World) (c : MuxConnection) (k : MuxClient) (rest : Ends fuel)
      (at_q : v.conn q ≡ some c) (at_p : v.client p ≡ some k) (behind : last ≤ v.clock)
      (enough : Enough (suc fuel) (ib_size c) (v.clock - last))
      (early : v.clock + suc fuel * 1000010 < m64) where
    -- The time that the clock shows next.
    abbrev t : ℕ
    t = v.clock + sys.elapsed v.calls

    near : ltb flush_limit (sub64 t last) ≡ false → t - last ≤ 1000
    near e =
        let small : t < m64 = omega (arith, steady v.calls, early) in
        ground (arith, sub64_ahead t last (omega arith) small, e)

    room_left : t - last ≤ 1000 → Enough fuel (ib_size c) (t + flush_pause - last)
    room_left h = omega (arith, enough, h)

    idle :
        Ensures
          (λ _ v'. Alive q p v')
          ((do
            t ← mstime64 sys
            elim (ltb flush_limit (sub64 t last)) as (λ _. M (Unit {0})) [
              | true ↦ pure tt
              | false ↦ do pass flush_pause; flush sys fuel q p last
            ])
            v)
    unfolding mstime64
    idle = elim (Bool-cases (ltb flush_limit (sub64 t last))) [
      | inl over ↦ rw (◌>>=◌, over) ((c, at_q), (k, at_p))
      | inr waits ↦
          rw (◌>>=◌, waits)
            (rest last (record v { calls = suc v.calls; clock = t + flush_pause }) c k at_q at_p
              (omega arith) (room_left (near waits)) (omega (arith, steady v.calls, early)))
    ]

    moved :
        (n : ℕ)
        → n < ib_size c
        → 0 < n
        → Ensures
            (λ _ v'. Alive q p v')
            ((do
              store_conn q (record c { ib_buf = drop n c.ib_buf })
              t ← mstime64 sys
              flush sys fuel q p t)
              v)
    unfolding mstime64
    moved n less some_sent =
        rest t
          (record v {
            calls = suc v.calls;
            clock = t;
            conn = update v.conn q (some (record c { ib_buf = drop n c.ib_buf }));
          })
          (record c { ib_buf = drop n c.ib_buf }) k (update_self v.conn q _) at_p (omega arith)
          (rw (length-drop n c.ib_buf) (omega (arith, enough)))
          (omega (arith, steady v.calls, early))

  flush-Alive : (fuel : ℕ) → Ends fuel
  unfolding flush
  flush-Alive zero last w c k at_q at_p behind enough early = absurd (omega (arith, enough))
  flush-Alive (suc fuel) last w c k at_q at_p behind enough early =
      rw (at_q, ◌>>=◌)
        (Ensures-bind (client_write sys p c.ib_buf) _ _ _ w
          (client_write-Wrote sys doc c.ib_buf w p k at_p)
          (λ r v wrote. elim wrote.3 [
            | inl e ↦ rw e ((c, rw wrote.0 at_q), (k, rw wrote.1 at_p))
            | inr (zero, e, le) ↦ rw e (
                idle fuel last v c k (flush-Alive fuel) (rw wrote.0 at_q) (rw wrote.1 at_p)
                  (rw wrote.2 behind) (rw wrote.2 enough) (rw wrote.2 early))
            | inr (suc m, e, le) ↦ rw e (elim (Bool-cases (suc m == ib_size c)) [
              | inl all ↦
                  rw all ((record c { ib_buf = [] }, update_self v.conn q _), (k, rw wrote.1 at_p))
              | inr less ↦ rw less (
                  moved fuel last v c k (flush-Alive fuel) (rw wrote.0 at_q) (rw wrote.1 at_p)
                    (rw wrote.2 behind) (rw wrote.2 enough) (rw wrote.2 early) (suc m)
                    (ground arith) (omega arith))
            ])
          ]))

  -- The flush of a live connection to a live client returns, and both are still live: each turn
  -- writes bytes, or waits ten milliseconds of the second after which the loop gives up. The clock
  -- takes less than a thousand seconds from one reading to the next and is far from 2^64.
  pub flush_to_client-Alive :
      (w : World) (c : MuxConnection) (k : MuxClient)
      → w.conn q ≡ some c
      → w.client p ≡ some k
      → w.clock + slow + flush_rounds (ib_size c) * 1000010 < m64
      → Ensures (λ _ v. Alive q p v) (flush_to_client sys q p w)
  unfolding flush_to_client mstime64
  flush_to_client-Alive w c k at_q at_p early =
      rw (at_q, ◌>>=◌)
        (elim (Bool-cases (has_bit pollout c.events && ltb 0 (ib_size c))) [
          | inr off ↦ rw off ((c, at_q), (k, at_p))
          | inl on ↦
              rw (on, ◌>>=◌)
                (flush-Alive (flush_rounds (ib_size c)) (w.clock + sys.elapsed w.calls)
                  (record w { calls = suc w.calls; clock = w.clock + sys.elapsed w.calls }) c k at_q
                  at_p (omega arith)
                  (omega (arith, and_right (has_bit pollout c.events) (ib_size c) on))
                  (omega (arith, steady w.calls, early)))
        ])
