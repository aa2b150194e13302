-- ===== src/Conf/Uuid/Shape.antt =====
-- The text that config_generate_uuid of src/conf.c makes.
use usbmuxd.Prelude.{
  Bool, Bool-cases, List, [], ap, arith, false, get_or, if◌then◌else◌, inl, inr, leb, length, m32,
  refl, sub32, suc, true, zero, ℕ, ◌%◌, ◌&&◌, ◌+◌, ◌-◌, ◌<◌, ◌==◌, ◌||◌, ◌∷◌, ◌≡◌,
}
use usbmuxd.Plist.{codes}
use usbmuxd.World.{Ensures, Sys, World}
use usbmuxd.Conf.Uuid.{
  config_generate_system_buid, config_generate_uuid, get_rand, is_hyphen_place, uuid_from,
}

-- A digit, or a letter from 'A' to 'F'.
abbrev pub is_hex : ℕ → Bool
is_hex c = (leb 65 c && leb c 70) || (leb 48 c && leb c 57)

-- '-' at a place for it, and otherwise such a digit or letter.
abbrev pub is_uuid_byte : ℕ → ℕ → Bool
is_uuid_byte i c = if is_hyphen_place i then c == 45 else is_hex c

abbrev pub IsUuid : List ℕ → Type 0
IsUuid s = (length s ≡ 36) × ((i : ℕ) → i < 36 → is_uuid_byte i (get_or s i 0) ≡ true)

abbrev all_hex : List ℕ → Bool
all_hex [] = true
all_hex (x ∷ xs) = is_hex x && all_hex xs

get_or-hex :
    (xs : List ℕ) (k : ℕ) → all_hex xs ≡ true → k < length xs → is_hex (get_or xs k 0) ≡ true
get_or-hex [] k a h = absurd (omega arith)
get_or-hex (x ∷ xs) zero a h = ground arith
get_or-hex (x ∷ xs) (suc k) a h = get_or-hex xs k (ground arith) (omega arith)

module _ (sys : Sys) where
  length-uuid_from : (seed left i n : ℕ) → length (uuid_from sys seed left i n) ≡ left
  unfolding uuid_from
  length-uuid_from seed zero i n = refl
  length-uuid_from seed (suc left) i n = elim (Bool-cases (is_hyphen_place i)) [
    | inl e ↦ rw e (ap suc (length-uuid_from seed left (suc i) n))
    | inr e ↦ rw e (ap suc (length-uuid_from seed left (suc i) (suc n)))
  ]

  drawn-hex :
      (seed n : ℕ) → is_hex (get_or (codes "ABCDEF0123456789") (get_rand sys seed n 0 16) 0) ≡ true
  unfolding get_rand
  drawn-hex seed n =
      get_or-hex (codes "ABCDEF0123456789") (sys.rand seed n % (16 - 0) + 0) refl (omega arith)

  first-byte :
      (b : Bool) (i c : ℕ) (xs ys : List ℕ)
      → is_hyphen_place i ≡ b
      → is_hex c ≡ true
      → is_uuid_byte i (get_or (if b then 45 ∷ xs else c ∷ ys) 0 0) ≡ true
  first-byte true i c xs ys e h = rw e refl
  first-byte false i c xs ys e h = rw e h

  get_or-uuid_from :
      (seed left i n k j : ℕ)
      → k < left
      → j ≡ i + k
      → is_uuid_byte j (get_or (uuid_from sys seed left i n) k 0) ≡ true
  unfolding uuid_from
  get_or-uuid_from seed zero i n k j h at = absurd (omega arith)
  get_or-uuid_from seed (suc left) i n zero j h at =
      let same : j ≡ i = omega arith in
      rw same (first-byte (is_hyphen_place i) i _ _ _ refl (drawn-hex seed n))
  get_or-uuid_from seed (suc left) i n (suc k) j h at = elim (Bool-cases (is_hyphen_place i)) [
    | inl e ↦ rw e (get_or-uuid_from seed left (suc i) n k j (omega arith) (omega arith))
    | inr e ↦ rw e (get_or-uuid_from seed left (suc i) (suc n) k j (omega arith) (omega arith))
  ]

  pub config_generate_system_buid-IsUuid :
      (w : World) → Ensures (λ s w'. IsUuid s) (config_generate_system_buid sys w)
  unfolding config_generate_system_buid config_generate_uuid
  config_generate_system_buid-IsUuid w = (
    length-uuid_from (sub32 (sys.time w.calls % m32) 1) 36 0 0,
    λ i h. get_or-uuid_from (sub32 (sys.time w.calls % m32) 1) 36 0 0 i i h (omega arith),
  )
