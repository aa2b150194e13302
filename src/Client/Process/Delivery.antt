-- ===== src/Client/Process/Delivery.antt =====
-- `output_buffer_process` of src/client.c: the socket gets the bytes of the output buffer in order.
use usbmuxd.World.{Ensures, Sys, World, rejoin_after, replies, sent, update_self, ◌>>=◌}
use usbmuxd.Prelude.{
  ==_iff, Bool, List, Option, [], arith, drop, drop-all, eq_self, false, if◌then◌else◌, length,
  length-drop, none, refl, some, suc, sym, true, ℕ, ◌++◌, ◌<◌, ◌==◌, ◌∙◌, ◌∷◌, ◌≡◌,
}
use usbmuxd.Client.State.{
  ClientState, MuxClient, command, connected, connecting1, connecting2, dead, listen,
}
use usbmuxd.Client.Process.{after_send, drained, output_buffer_process}

-- The bytes that wait in the output buffer.
abbrev pub pending : Option (List ℕ) → List ℕ
pending none = []
pending (some b) = b

module _ (c : MuxClient) (b : List ℕ) where
  drained-pending : (s : ClientState) → pending (drained s c).ob_buf ≡ []
  unfolding drained
  drained-pending command = refl
  drained-pending listen = refl
  drained-pending connecting1 = refl
  drained-pending connecting2 = refl
  drained-pending connected = refl
  drained-pending dead = refl

  after_send-pending : (n : ℕ) → pending (after_send n c b).ob_buf ≡ drop n b
  unfolding after_send
  after_send-pending n = go (n == length b) refl
    where
      go :
          (t : Bool)
          → (n == length b) ≡ t
          → pending (if t then drained c.state c else record c { ob_buf = some (drop n b) }).ob_buf
            ≡ drop n b
      go true e =
          drained-pending c.state ∙ sym (drop-all n b (omega (arith, (==_iff n (length b)).0 e)))
      go false e = refl

  after_send-switches :
      (n : ℕ)
      → n ≡ length b
      → c.state ≡ connecting2
      → ((after_send n c b).state ≡ connected) × ((after_send n c b).events ≡ c.devents)
  unfolding after_send drained
  after_send-switches n e s = rw ((==_iff n (length b)).1 e, s) (refl, refl)

module _ (sys : Sys) (p k x : ℕ) (b : List ℕ) (w : World) (c : MuxClient)
    (at_p : w.client p ≡ some c) (buf : c.ob_buf ≡ some (x ∷ b))
    (took : sys.send w.calls (suc (length b)) ≡ sent (suc k)) where
  -- The socket takes any positive number of bytes of a client's output buffer, which is not empty:
  -- the function returns; the bytes that the socket was given so far and those that still wait are
  -- together what they were, in order; fewer wait than before; and when none are left of a client
  -- in the middle of connecting, it is connected and polls for what the connection asked for.
  pub output_buffer_process-Delivers :
      Ensures
        (λ _ w'.
          (c' : MuxClient) × (w'.client p ≡ some c')
          × (replies c.fd w'.out ++ pending c'.ob_buf ≡ replies c.fd w.out ++ (x ∷ b))
          × (length (pending c'.ob_buf) < length (x ∷ b))
          × ((suc k ≡ length (x ∷ b))
              → c.state ≡ connecting2
              → (c'.state ≡ connected) × (c'.events ≡ c.devents)))
        (output_buffer_process sys p w)
  unfolding output_buffer_process
  output_buffer_process-Delivers =
      rw (at_p, ◌>>=◌, buf, took)
        (
          after_send (suc k) c (x ∷ b),
          update_self w.client p _,
          rw (eq_self c.fd, after_send-pending c (x ∷ b) (suc k))
              (rejoin_after (replies c.fd w.out) (x ∷ b) (suc k)),
          rw (after_send-pending c (x ∷ b) (suc k)) (omega (arith, length-drop k b)),
          after_send-switches c (x ∷ b) (suc k),
        )
