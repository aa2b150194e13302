-- ===== src/Conf/Buid.antt =====
-- config_set_system_buid and config_get_system_buid of src/conf.c.
pub mod Stable
use usbmuxd.Prelude.{List, Option, none, some, ℕ, ℤ}
use usbmuxd.Plist.{codes, string, string_of}
use usbmuxd.World.{M, Sys, pure, ◌>>=◌, ◌>>◌}
use usbmuxd.Conf.Uuid.{config_generate_system_buid}
use usbmuxd.Conf.Values.{config_get_value, config_set_value}

module _ (sys : Sys) where
  unfoldable pub config_set_system_buid : List ℕ → M ℤ
  unfolding config_set_value
  config_set_system_buid system_buid =
      config_set_value sys (codes "SystemBUID") (string system_buid)

  -- The stored one, or a new one, which is stored.
  abbrev pub buid_or_new : Option (List ℕ) → M (List ℕ)
  buid_or_new (some s) = pure s
  buid_or_new none = do s ← config_generate_system_buid sys; config_set_system_buid s >> pure s

  -- A result 0 of config_set_system_buid is only logged.
  unfoldable pub config_get_system_buid : M (List ℕ)
  unfolding config_get_value config_generate_system_buid config_set_system_buid
  config_get_system_buid = do
    value ← config_get_value sys (codes "SystemBUID")
    buid_or_new (string_of value)
