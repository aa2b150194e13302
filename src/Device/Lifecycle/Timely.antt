-- ===== src/Device/Lifecycle/Timely.antt =====
-- `device_get_timeout` of src/device.c: the event loop wakes before an acknowledgement is overdue.
use usbmuxd.Device.Send.{mstime64}
use usbmuxd.Prelude.{
  ==_iff, Bool, Bool-cases, List, [], arith, false, inl, inr, ltb, mem, refl, some, sub64,
  sub64_ahead, suc, sym, true, ℕ, ◌&&◌, ◌+◌, ◌-◌, ◌<◌, ◌==◌, ◌∷◌, ◌≡◌, ◌≤◌, ◌⊎◌,
}
use usbmuxd.World.{Sys, World, ret, ◌>>=◌}
use usbmuxd.Device.State.{MuxConnection, MuxDevice, ack_timeout, is_active}
use usbmuxd.Device.Find.Sport.{AllConn}
use usbmuxd.Device.Lifecycle.{
  device_get_timeout, no_ack_time, older, oldest_conn, oldest_dev, owes_ack, timeout_of,
}

-- The devices are live; the active ones have their collection, whose connections are live.
abbrev pub AllSetUp : World → List ℕ → Type 0
AllSetUp w [] = Unit {0}
AllSetUp w (p ∷ ps) =
    ((d : MuxDevice) × (w.dev p ≡ some d)
      × (is_active d.state ≡ true → (qs : List ℕ) × (d.connections ≡ some qs) × AllConn w qs))
    × AllSetUp w ps

-- A connection in one of the lists, by device.
abbrev pub Owing : World → ℕ → ℕ → MuxConnection → Type 0
Owing w p q c =
    ((d : MuxDevice) × (qs : List ℕ) × (w.dev p ≡ some d)
      × (is_active d.state ≡ true)
      × (d.connections ≡ some qs)
      × (mem qs q ≡ true))
    × (w.conn q ≡ some c)
    × (owes_ack c ≡ true)

less_than : (b : Bool) (m n : ℕ) → (b && ltb m n) ≡ true → m ≤ n
less_than b m n h = ground arith

older_le : (o : ℕ) (c : MuxConnection) → older o c ≤ o
older_le o c = elim (Bool-cases (owes_ack c && ltb c.last_ack_time o)) [
  | inl less ↦ rw less (less_than (owes_ack c) c.last_ack_time o less)
  | inr keeps ↦ rw keeps (omega arith)
]

older_owing : (o : ℕ) (c : MuxConnection) → owes_ack c ≡ true → older o c ≤ c.last_ack_time
older_owing o c owes = rw owes (ground arith)

module _ (w : World) where
  oldest_conn_le :
      (qs : List ℕ) (o : ℕ) → AllConn w qs → (o' : ℕ) × (oldest_conn qs o w ≡ ret o' w) × (o' ≤ o)
  unfolding oldest_conn
  oldest_conn_le [] o live = (o, refl, omega arith)
  oldest_conn_le (q ∷ qs) o ((c, e), live) =
      let rest = oldest_conn_le qs (older o c) live in
      (rest.0, rw (e, ◌>>=◌) rest.1, omega (arith, older_le o c, rest.2))

  oldest_conn_owing :
      (qs : List ℕ) (o q : ℕ) (c : MuxConnection)
      → AllConn w qs
      → mem qs q ≡ true
      → w.conn q ≡ some c
      → owes_ack c ≡ true
      → (o' : ℕ) × (oldest_conn qs o w ≡ ret o' w) × (o' ≤ o) × (o' ≤ c.last_ack_time)
  unfolding oldest_conn mem
  oldest_conn_owing [] o q c live there e owes = cc
  oldest_conn_owing (x ∷ qs) o q c ((c', e'), live) there e owes = elim (Bool-cases (x == q)) [
    | inl here ↦
        let at_x : w.conn x ≡ some c = rw ((==_iff x q).0 here) e in
        let rest = oldest_conn_le qs (older o c) live in
        (
          rest.0,
          rw (at_x, ◌>>=◌) rest.1,
          omega (arith, older_le o c, rest.2),
          omega (arith, older_owing o c owes, rest.2),
        )
    | inr later ↦
        let rest = oldest_conn_owing qs (older o c') q c live (rw later at there) e owes in
        (rest.0, rw (e', ◌>>=◌) rest.1, omega (arith, older_le o c', rest.2), rest.3)
  ]

  -- One device: the time goes on to the rest of the list.
  abbrev Older : List ℕ → ℕ → ℕ → Type 0
  Older ps o bound = (o' : ℕ) × (oldest_dev ps o w ≡ ret o' w) × (o' ≤ o) × (o' ≤ bound)

  -- A device that is set up.
  abbrev SetUp : ℕ → Type 0
  SetUp p =
      (d : MuxDevice) × (w.dev p ≡ some d)
      × (is_active d.state ≡ true → (qs : List ℕ) × (d.connections ≡ some qs) × AllConn w qs)

  dev_step :
      (p : ℕ) (ps : List ℕ) (o o₁ bound : ℕ) (d : MuxDevice) (qs : List ℕ)
      → w.dev p ≡ some d
      → is_active d.state ≡ true
      → d.connections ≡ some qs
      → oldest_conn qs o w ≡ ret o₁ w
      → o₁ ≤ o
      → Older ps o₁ bound
      → Older (p ∷ ps) o bound
  unfolding oldest_dev
  dev_step p ps o o₁ bound d qs e act set_up conns le (o', run, le', h) =
      (o', rw (e, ◌>>=◌, act, set_up, conns) run, omega arith, h)

  -- Whatever the device adds, the time does not grow.
  dev_any :
      (p : ℕ) (ps : List ℕ) (o bound : ℕ)
      → SetUp p
      → (o₁ : ℕ) × (o₁ ≤ o) × (Older ps o₁ bound → Older (p ∷ ps) o bound)
  unfolding oldest_dev
  dev_any p ps o bound (d, e, conns) = elim (Bool-cases (is_active d.state)) [
    | inr idle ↦ (o, omega arith, λ rest. (rest.0, rw (e, ◌>>=◌, idle) rest.1, rest.2, rest.3))
    | inl act ↦
        let (qs, set_up, all) = conns act in
        let here = oldest_conn_le qs o all in
        (here.0, here.2, dev_step p ps o here.0 bound d qs e act set_up here.1 here.2)
  ]

  oldest_dev_le : (ps : List ℕ) (o bound : ℕ) → AllSetUp w ps → o ≤ bound → Older ps o bound
  unfolding oldest_dev
  oldest_dev_le [] o bound live h = (o, refl, omega arith, h)
  oldest_dev_le (p ∷ ps) o bound (set_up, live) h =
      let step = dev_any p ps o bound set_up in
      step.2 (oldest_dev_le ps step.0 bound live (omega (arith, step.1)))

  module _ (p q : ℕ) (c : MuxConnection) (owing : Owing w p q c) where
    owing_active : (d : MuxDevice) → w.dev p ≡ some d → is_active d.state ≡ true
    owing_active d e = let same : owing.0.0 ≡ d = cc in rw⁻¹ same owing.0.3

    owing_mem :
        (d : MuxDevice) (qs : List ℕ) → w.dev p ≡ some d → d.connections ≡ some qs → mem qs q ≡ true
    owing_mem d qs e set_up =
        let same : owing.0.0 ≡ d = cc in let same_qs : owing.0.1 ≡ qs = cc in rw⁻¹ same_qs owing.0.5

    -- The device that has the connection.
    oldest_dev_here :
        (ps : List ℕ) (o : ℕ) → SetUp p → AllSetUp w ps → Older (p ∷ ps) o c.last_ack_time
    oldest_dev_here ps o (d, e, conns) live =
        let act = owing_active d e in
        let (qs, set_up, all) = conns act in
        let here = oldest_conn_owing qs o q c all (owing_mem d qs e set_up) owing.1 owing.2 in
        dev_step p ps o here.0 c.last_ack_time d qs e act set_up here.1 here.2
          (oldest_dev_le ps here.0 c.last_ack_time live here.3)

    oldest_dev_owing :
        (ps : List ℕ) (o : ℕ) → AllSetUp w ps → mem ps p ≡ true → Older ps o c.last_ack_time
    unfolding mem
    oldest_dev_owing [] o live there = cc
    oldest_dev_owing (x ∷ ps) o (at_x, live) there = elim (Bool-cases (x == p)) [
      | inl here ↦
          let same : p ≡ x = sym ((==_iff x p).0 here) in
          rw⁻¹ same (oldest_dev_here ps o (rw same at_x) live)
      | inr later ↦
          let step = dev_any x ps o c.last_ack_time at_x in
          step.2 (oldest_dev_owing ps step.0 live (rw later at there))
    ]

timeout_of_due :
    (oldest last ct : ℕ)
    → oldest ≤ last
    → last ≤ ct
    → ct < no_ack_time
    → (timeout_of oldest ct ≡ 0) ⊎ (ct + timeout_of oldest ct ≤ last + ack_timeout)
unfolding timeout_of
timeout_of_due oldest last ct h1 h2 h3 =
    let later : sub64 ct oldest ≡ ct - oldest = sub64_ahead ct oldest (omega arith) (omega arith) in
    let timed : (oldest == no_ack_time) ≡ false = ground arith in
    elim (Bool-cases (ltb ack_timeout (ct - oldest))) [
      | inl over ↦ rw (timed, later, over) (inl refl)
      | inr soon ↦ rw (timed, later, soon) (inr (remaining soon))
    ]
  where
    remaining :
        ltb ack_timeout (ct - oldest) ≡ false
        → ct + (ack_timeout - (ct - oldest)) ≤ last + ack_timeout
    remaining e = ground arith

-- With live devices that are set up, and a connection of an active one that owes an
-- acknowledgement since `last_ack_time`: the call returns a time after which that acknowledgement
-- is at most ACK_TIMEOUT old, or 0 if it is already older, for a clock below 2^64 - 1.
pub device_get_timeout_due :
    (sys : Sys) (w : World) (p q : ℕ) (c : MuxConnection)
    → AllSetUp w w.device_list
    → mem w.device_list p ≡ true
    → Owing w p q c
    → let ct = w.clock + sys.elapsed w.calls in
      c.last_ack_time ≤ ct
      → ct < no_ack_time
      → (r : ℕ) × (device_get_timeout sys w ≡ ret r (record w { calls = suc w.calls; clock = ct }))
        × ((r ≡ 0) ⊎ (ct + r ≤ c.last_ack_time + ack_timeout))
unfolding device_get_timeout mstime64
device_get_timeout_due sys w p q c live there owing past early =
    let oldest = oldest_dev_owing w p q c owing w.device_list no_ack_time live there in
    (
      timeout_of oldest.0 (w.clock + sys.elapsed w.calls),
      rw (oldest.1, ◌>>=◌) refl,
      timeout_of_due oldest.0 c.last_ack_time _ oldest.3 past early,
    )
