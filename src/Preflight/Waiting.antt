-- ===== src/Preflight/Waiting.antt =====
-- When the wait of preflight_worker_handle_device_add in src/preflight.c is over.
use usbmuxd.Preflight.Halting.{wait-Halts}
use usbmuxd.Prelude.{
  Bool, Bool-cases, List, Option, [], ap, eq_bytes, false, inl, inr, none, not, refl, some, sym,
  true, ℕ, ◌&&◌, ◌||◌, ◌∙◌, ◌∷◌, ◌≡◌,
}
use usbmuxd.World.{
  Ends, Ensures, Ensures-Ends, Ensures-and, Ensures-bind, Ensures-mono, Halts, M, Outcome, Returns,
  Returns-bind, Sys, World, load_cb, pure, store_cb, update_self, ◌>>=◌, ◌>>◌,
}
use usbmuxd.Conf.Buid.{config_get_system_buid}
use usbmuxd.Conf.Frame.{config_get_system_buid-Keeps}
use usbmuxd.Conf.Rooted.{Rooted, config_get_system_buid-Rooted, same-Rooted}
use usbmuxd.Preflight.State.{CbData}
use usbmuxd.Preflight.Lockdown.{
  Lockdown, LockdownError, invalid_host_id, other_error, password_protected, ssl_error, success,
}
use usbmuxd.Preflight.Callback.{
  answer_buid, lockdownd_client_new, lockdownd_set_untrusted_host_buid, np_callback,
  on_notification, pair_now, preflight_device_remove_cb, request_host_buid, request_pair,
}
use usbmuxd.Preflight.Worker.{
  Event, happen, happen_all, has_np, is_waiting, notified, removal, wait_for_trust,
}

-- The events that end a wait: the device is gone, its notifications have ended, or its user asks
-- for the pairing.
abbrev pub is_end : Event → Bool
is_end removal = true
is_end (notified notification) = eq_bytes notification [] || eq_bytes notification request_pair

abbrev pub any_end : List Event → Bool
any_end [] = false
any_end (e ∷ es) = is_end e || any_end es

abbrev pub some_sleep_ends : List (List Event) → Bool
some_sleep_ends [] = false
some_sleep_ends (es ∷ sleeps) = any_end es || some_sleep_ends sleeps

and_false : (a : Bool) → (a && false) ≡ false
and_false true = refl
and_false false = refl

and_true : (a : Bool) → (a && true) ≡ a
and_true true = refl
and_true false = refl

or_false : (a : Bool) → (a || false) ≡ a
or_false true = refl
or_false false = refl

not_either : (a b c : Bool) → (a && not b && not c) ≡ (a && not (b || c))
not_either true true c = refl
not_either true false c = refl
not_either false b c = refl

-- A wait that goes on, or not, by one sleep.
step : (waits b c : Bool) → waits ≡ (true && not b) → (not waits || c) ≡ (not true || (b || c))
step waits true c e = rw e refl
step waits false c e = rw e refl

module _ (sys : Sys) (lockdown : Lockdown) (dir : List ℕ) (p : ℕ) where
  -- The configuration is in order, and the data of the callback is there.
  abbrev pub Has : CbData → World → Type 0
  Has c w = Rooted dir w × (w.cb_data p ≡ some c)

  -- lockdownd_pair returns, with both as they were.
  abbrev pub Pairs : Type 0
  Pairs = (c : CbData) → Returns (Has c) lockdown.pair

  module _ (pairs : Pairs) where
    -- After some events the wait goes on exactly if it did before and none of them ends it.
    abbrev Goes : Bool → World → Type 0
    Goes waits w = (c : CbData) × Has c w × (is_waiting c ≡ waits)

    change_cb-Has :
        (f : CbData → CbData) (c : CbData) (w : World)
        → Has c w
        → Ensures (λ u w'. Has (f c) w') ((load_cb p >>= λ d. store_cb p (f d)) w)
    change_cb-Has f c w (r, at) =
        rw (at, ◌>>=◌) (same-Rooted w _ refl refl r, update_self w.cb_data p (some (f c)))

    abbrev finish : M (Unit {0})
    finish = load_cb p >>= λ c. store_cb p (record c { is_finished = true })

    untrusted-Has : (c : CbData) → Returns (Has c) (lockdownd_set_untrusted_host_buid sys lockdown)
    unfolding lockdownd_set_untrusted_host_buid
    untrusted-Has c w (r, at) =
        Ensures-bind (config_get_system_buid sys) _ (λ s w'. Has c w') (λ u w'. Has c w') w
          (Ensures-and (λ s w'. Rooted dir w') (λ s w'. w'.cb_data p ≡ some c) _
            (config_get_system_buid-Rooted sys dir w r)
            (config_get_system_buid-Keeps sys (λ v. v.cb_data p ≡ some c) (λ v n d e i. i) w at))
          (λ s w' h. (same-Rooted w' _ refl refl h.0, h.1))

    client_new-Has : (c : CbData) → Returns (Has c) (lockdownd_client_new sys lockdown)
    client_new-Has c w h = (same-Rooted w _ refl refl h.0, h.1)

    pair_now-Has : (c : CbData) (e : LockdownError) → Returns (Has c) (pair_now sys lockdown e)
    pair_now-Has c success w h =
        Returns-bind (Has c) lockdown.pair (λ _. pure tt) (pairs c) (λ e w' h'. h') w h
    pair_now-Has c invalid_host_id w h = h
    pair_now-Has c ssl_error w h = h
    pair_now-Has c password_protected w h = h
    pair_now-Has c other_error w h = h

    answer_buid-Has :
        (c : CbData) (e : LockdownError) → Returns (Has c) (answer_buid sys lockdown e)
    answer_buid-Has c success w h = untrusted-Has c w h
    answer_buid-Has c invalid_host_id w h = h
    answer_buid-Has c ssl_error w h = h
    answer_buid-Has c password_protected w h = h
    answer_buid-Has c other_error w h = h

    ended : (a b : Bool) → (a && b && not true) ≡ false
    ended true true = refl
    ended true false = refl
    ended false b = refl

    cut : (a b : Bool) → (a && false && b) ≡ false
    cut true b = refl
    cut false b = refl

    ending-Goes :
        (waits : Bool) (c : CbData) (o : Outcome (Unit {0}))
        → is_waiting c ≡ waits
        → Ensures (λ u. Has c) o
        → Ensures (λ u. Goes waits) o
    ending-Goes waits c o e h = Ensures-mono (λ u. Has c) (λ u. Goes waits) o h (λ u w k. (c, k, e))

    on_notification-Goes :
        (empty pair buid : Bool) (c : CbData) (w : World)
        → Has c w
        → Ensures
            (λ u. Goes (is_waiting c && not (empty || pair)))
            (on_notification sys lockdown p empty pair buid w)
    on_notification-Goes true pair buid c w h =
        ending-Goes _ (record c { np = none }) _ (sym (and_false (is_waiting c)))
          (change_cb-Has (λ d. record d { np = none }) c w h)
    on_notification-Goes false true buid c w h =
        ending-Goes _ (record c { is_finished = true }) _
          (ended (has_np c.np) c.is_device_connected ∙ sym (and_false (is_waiting c)))
          (Ensures-bind (lockdownd_client_new sys lockdown) (λ e. pair_now sys lockdown e >> finish)
            (λ e w'. Has c w') (λ u. Has (record c { is_finished = true })) w (client_new-Has c w h)
            (λ e w' h'.
              Ensures-bind (pair_now sys lockdown e) (λ u. finish) (λ u w''. Has c w'')
                (λ u. Has (record c { is_finished = true })) w' (pair_now-Has c e w' h')
                (λ u w'' h''. change_cb-Has (λ d. record d { is_finished = true }) c w'' h'')))
    on_notification-Goes false false true c w h =
        ending-Goes _ c _ (sym (and_true (is_waiting c))) (
          Returns-bind (Has c) (lockdownd_client_new sys lockdown) (answer_buid sys lockdown)
            (client_new-Has c) (answer_buid-Has c) w h)
    on_notification-Goes false false false c w h = (c, h, sym (and_true (is_waiting c)))

    happen-Goes :
        (e : Event) (c : CbData) (w : World)
        → Has c w
        → Ensures (λ u. Goes (is_waiting c && not (is_end e))) (happen sys lockdown p e w)
    unfolding happen np_callback preflight_device_remove_cb
    happen-Goes (notified notification) c w h =
        on_notification-Goes (eq_bytes notification []) (eq_bytes notification request_pair)
          (eq_bytes notification request_host_buid) c w h
    happen-Goes removal c w h =
        ending-Goes _ (record c { is_device_connected = false }) _
          (cut (has_np c.np) (not c.is_finished) ∙ sym (and_false (is_waiting c)))
          (change_cb-Has (λ d. record d { is_device_connected = false }) c w h)

    happen_all-Goes :
        (es : List Event) (c : CbData) (w : World)
        → Has c w
        → Ensures (λ u. Goes (is_waiting c && not (any_end es))) (happen_all sys lockdown p es w)
    unfolding happen_all
    happen_all-Goes [] c w h = (c, h, sym (and_true (is_waiting c)))
    happen_all-Goes (e ∷ es) c w h =
        Ensures-bind (happen sys lockdown p e) (λ u. happen_all sys lockdown p es)
          (λ u. Goes (is_waiting c && not (is_end e)))
          (λ u. Goes (is_waiting c && not (any_end (e ∷ es)))) w (happen-Goes e c w h)
          (λ u w' (d, k, same).
            Ensures-mono (λ u. Goes (is_waiting d && not (any_end es)))
              (λ u. Goes (is_waiting c && not (any_end (e ∷ es)))) (happen_all sys lockdown p es w')
              (happen_all-Goes es d w' k)
              (λ v w'' (f, m, same'). (
                f,
                m,
                same'
                    ∙ ap (λ b. b && not (any_end es)) same
                    ∙ not_either (is_waiting c) (is_end e) (any_end es),
              )))

    -- With the callback's data there and lockdownd_pair returning: the loop is over after these
    -- sleeps if and only if the worker did not wait at all, or some event of the sleeps is an end:
    -- the removal of the device, the empty notification, or the request for the pairing.
    pub wait_for_trust-over :
        (sleeps : List (List Event)) (c : CbData) (w : World)
        → Has c w
        → Ensures
            (λ over w'. over ≡ (not (is_waiting c) || some_sleep_ends sleeps))
            (wait_for_trust sys lockdown p sleeps w)
    unfolding wait_for_trust
    wait_for_trust-over [] c w h = rw (h.1, ◌>>=◌) (sym (or_false (not (is_waiting c))))
    wait_for_trust-over (es ∷ sleeps) c w h =
        rw (h.1, ◌>>=◌)
          (elim (Bool-cases (is_waiting c)) [
            | inr e ↦ rw e refl
            | inl e ↦ rw e (
                Ensures-bind (happen_all sys lockdown p es)
                  (λ u. wait_for_trust sys lockdown p sleeps)
                  (λ u. Goes (is_waiting c && not (any_end es)))
                  (λ over w'. over ≡ (not true || some_sleep_ends (es ∷ sleeps))) w
                  (happen_all-Goes es c w h)
                  (λ u w' (d, k, same).
                    Ensures-mono (λ over w''. over ≡ (not (is_waiting d) || some_sleep_ends sleeps))
                      (λ over w''. over ≡ (not true || some_sleep_ends (es ∷ sleeps)))
                      (wait_for_trust sys lockdown p sleeps w') (wait_for_trust-over sleeps d w' k)
                      (λ over w'' eq.
                        eq
                        ∙ step (is_waiting d) (any_end es) (some_sleep_ends sleeps)
                            (same ∙ ap (λ b. b && not (any_end es)) e))))
          ])

-- Without the data of the callback the wait touches memory that it may not.
wait_for_trust-missing :
    (sys : Sys) (lockdown : Lockdown) (p : ℕ) (sleeps : List (List Event)) (w : World)
    (P : Bool → World → Type 0)
    → w.cb_data p ≡ none
    → Ends P (wait_for_trust sys lockdown p sleeps w)
unfolding wait_for_trust
wait_for_trust-missing sys lockdown p [] w P at = rw (at, ◌>>=◌) tt
wait_for_trust-missing sys lockdown p (es ∷ sleeps) w P at = rw (at, ◌>>=◌) tt

-- With an end among the events of the sleeps, the wait comes to its end.
pub wait_for_trust-Ends :
    (sys : Sys) (lockdown : Lockdown) (dir : List ℕ)
    → Halts (Rooted dir) lockdown.pair
    → ((v : World)
        → Rooted dir v
        → Ensures
            (λ e v'. Rooted dir v' × ((p : ℕ) → v'.cb_data p ≡ v.cb_data p))
            (lockdown.pair v))
    → (sleeps : List (List Event)) → some_sleep_ends sleeps ≡ true
    → (p : ℕ) (w : World) → Rooted dir w
    → Ends (λ over w'. (over ≡ true) × Rooted dir w') (wait_for_trust sys lockdown p sleeps w)
wait_for_trust-Ends sys lockdown dir halts pairs sleeps ends p w i = go (w.cb_data p) refl
  where
    has_pairs : Pairs sys lockdown dir p
    has_pairs c v (r, at) =
        Ensures-mono (λ e v'. Rooted dir v' × ((q : ℕ) → v'.cb_data q ≡ v.cb_data q))
          (λ e. Has sys lockdown dir p c) (lockdown.pair v) (pairs v r)
          (λ e v' h. (h.0, h.1 p ∙ at))

    or_true : (a : Bool) → (a || true) ≡ true
    or_true true = refl
    or_true false = refl

    go :
        (o : Option CbData)
        → w.cb_data p ≡ o
        → Ends (λ over w'. (over ≡ true) × Rooted dir w') (wait_for_trust sys lockdown p sleeps w)
    go none at = wait_for_trust-missing sys lockdown p sleeps w _ at
    go (some c) at =
        Ensures-Ends (λ over w'. over ≡ true) (λ over w'. Rooted dir w')
          (wait_for_trust sys lockdown p sleeps w)
          (Ensures-mono (λ over w'. over ≡ (not (is_waiting c) || some_sleep_ends sleeps))
            (λ over w'. over ≡ true) (wait_for_trust sys lockdown p sleeps w)
            (wait_for_trust-over sys lockdown dir p has_pairs sleeps c w (i, at))
            (λ over w' eq.
              eq ∙ ap (λ b. not (is_waiting c) || b) ends ∙ or_true (not (is_waiting c))))
          (wait-Halts sys lockdown dir halts p sleeps w i)
