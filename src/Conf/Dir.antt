-- ===== src/Conf/Dir.antt =====
-- The configuration directory of src/conf.c: config_get_config_dir, mkdir_with_parents,
-- config_create_config_dir, config_set_config_dir.
pub mod Created
pub mod Missing
use usbmuxd.Prelude.{
  List, Option, if◌then◌else◌, length, negsuc, none, pos, some, suc, zero, ℕ, ℤ, ◌++◌, ◌==◌, ◌∷◌,
}
use usbmuxd.Plist.{codes}
use usbmuxd.World.{M, Sys, hang, pure, ret, ◌>>=◌, ◌>>◌}
use usbmuxd.Conf.Path.{dir_sep, dirname, trim}
use usbmuxd.Conf.Files.{exists, mkdir, stat}

abbrev set_dir : List ℕ → M (Unit {0})
set_dir path w = ret tt (record w { config_dir = some path })

-- `config_get_config_dir`: the directory that was set, and otherwise the system's.
unfoldable pub initialised : Option (List ℕ) → M (List ℕ)
unfolding trim
initialised (some dir) = pure dir
initialised none = do
  let dir = trim (codes "/var/lib" ++ (dir_sep ∷ codes "lockdown"))
  set_dir dir
  pure dir

unfoldable pub config_get_config_dir : M (List ℕ)
unfolding initialised
config_get_config_dir w = initialised w.config_dir w

module _ (sys : Sys) where
  -- One level: 0 where the directory is there, and otherwise the same for the parent.
  unfoldable pub mkdir_with_parents : ℕ → List ℕ → M ℤ
  unfolding mkdir dirname
  mkdir_with_parents zero dir = λ w. hang
  mkdir_with_parents (suc fuel) dir = do
    e ← mkdir sys dir
    elim e [
      | none ↦ pure (pos 0)
      | some n ↦ if n == exists then pure (pos 0) else mkdir_with_parents fuel (dirname dir)
    ]

  -- Every call for a parent is about a shorter path, down to "/" or ".".
  abbrev pub levels : List ℕ → ℕ
  levels dir = suc (suc (length dir))

  unfoldable pub config_create_config_dir : M ℤ
  unfolding config_get_config_dir stat mkdir_with_parents
  config_create_config_dir = do
    config_path ← config_get_config_dir
    st ← stat sys config_path
    elim st [ some _ ↦ pure (pos 0) | none ↦ mkdir_with_parents (levels config_path) config_path ]

  unfoldable pub config_set_config_dir : Option (List ℕ) → M ℤ
  unfolding config_create_config_dir
  config_set_config_dir none = pure (negsuc 0)
  config_set_config_dir (some path) = set_dir path >> config_create_config_dir
