-- ===== src/Tests/Lawful.antt =====
-- The outside of the fixture keeps to the documented behaviour.
use usbmuxd.Prelude.{
  List, [], arith, if◌then◌else◌, length, length-take, some, take, ℕ, ◌++◌, ◌+◌, ◌-◌, ◌==◌, ◌∷◌,
  ◌≡◌, ◌≤◌,
}
use usbmuxd.World.{Documented, count, sent}
use usbmuxd.Tests.Fixture.{bare_header, benign}

sent_inj : (a b : ℕ) → sent a ≡ sent b → a ≡ b
sent_inj a b e = cc

some_inj : (a b : List ℕ) → some a ≡ some b → a ≡ b
some_inj a b e = cc

recv_short : (len : ℕ) (got : List ℕ) → benign.recv 0 len ≡ some got → length got ≤ len
recv_short len got e =
    rw⁻¹ (some_inj (take len bare_header) got e) (omega (arith, length-take len bare_header))

count-append_last :
    (xs : List ℕ) (x y : ℕ) → count y (xs ++ (x ∷ [])) ≡ (if x == y then 1 else 0) + count y xs
count-append_last [] x y = ground arith
count-append_last (z ∷ xs) x y = ground (arith, count-append_last xs x y)

count-without :
    (xs : List ℕ) (x y : ℕ)
    → count y (benign.collection_remove xs x) ≡ count y xs - (if x == y then 1 else 0)
count-without [] x y = ground arith
count-without (z ∷ xs) x y = ground (arith, count-without xs x y)

pub benign-Documented : Documented benign
benign-Documented = record {
  send_le = λ call len n e. omega (arith, sent_inj len n e);
  recv_le = λ call len got e. recv_short len got e;
  count-add = count-append_last;
  count-remove = count-without;
}
