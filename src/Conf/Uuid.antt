-- ===== src/Conf/Uuid.antt =====
-- get_rand, config_generate_uuid and config_generate_system_buid of src/conf.c.
pub mod Shape
use usbmuxd.Prelude.{
  Bool, List, [], get_or, if◌then◌else◌, m32, sub32, suc, zero, ℕ, ◌%◌, ◌+◌, ◌-◌, ◌==◌, ◌||◌, ◌∷◌,
}
use usbmuxd.Plist.{codes}
use usbmuxd.World.{M, Sys, call, pure, ◌>>=◌, ◌>>◌}

abbrev pub is_hyphen_place : ℕ → Bool
is_hyphen_place i = i == 8 || i == 13 || i == 18 || i == 23

module _ (sys : Sys) where
  -- `get_rand`, by the n-th `rand()` after `srand(seed)`.
  unfoldable pub get_rand : ℕ → ℕ → ℕ → ℕ → ℕ
  get_rand seed n lo hi = sys.rand seed n % (hi - lo) + lo

  -- The loop from the place `i` on, with `n` numbers drawn so far.
  unfoldable pub uuid_from : ℕ → ℕ → ℕ → ℕ → List ℕ
  unfolding get_rand
  uuid_from seed zero i n = []
  uuid_from seed (suc left) i n =
      if is_hyphen_place i
      then 45 ∷ uuid_from seed left (suc i) n
      else get_or (codes "ABCDEF0123456789") (get_rand seed n 0 16) 0
        ∷ uuid_from seed left (suc i) (suc n)

  -- `srand` takes an `unsigned int`.
  unfoldable pub config_generate_uuid : ℕ → M (List ℕ)
  unfolding uuid_from
  config_generate_uuid idx = do
    n ← call
    let seed = sub32 (sys.time n % m32) idx
    pure (uuid_from seed 36 0 0)

  unfoldable pub config_generate_system_buid : M (List ℕ)
  unfolding config_generate_uuid
  config_generate_system_buid = config_generate_uuid 1
