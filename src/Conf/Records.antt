-- ===== src/Conf/Records.antt =====
-- The pairing records of src/conf.c: config_has_device_record, config_set_device_record,
-- config_get_device_record, config_remove_device_record, config_device_record_get_value and
-- config_device_record_get_host_id. A NULL argument is `none`.
pub mod Refinement
pub mod Reading
pub mod RoundTrip
use usbmuxd.Prelude.{
  Bool, List, Option, [], false, if◌then◌else◌, leb, length, ltb, negsuc, none, not, pos, some, suc,
  true, zero, ℕ, ℤ, ◌&&◌, ◌==◌, ◌||◌, ◌∷◌,
}
use usbmuxd.Plist.{Plist, codes, dict, string_of}
use usbmuxd.World.{M, Node, Sys, file, pure, ◌>>=◌, ◌>>◌}
use usbmuxd.Conf.Path.{entry_path}
use usbmuxd.Conf.Files.{buffer_read_from_filename, plist_write_to_file, remove, stat}
use usbmuxd.Conf.Dir.{config_create_config_dir, config_get_config_dir}
use usbmuxd.Conf.Values.{internal_get_value}

-- `EINVAL` and `ENOENT`, negated.
abbrev pub invalid_argument : ℤ
invalid_argument = negsuc 21

abbrev pub not_found : ℤ
not_found = negsuc 1

-- `isalnum` in the C locale, or '-'.
abbrev is_udid_byte : ℕ → Bool
is_udid_byte u =
    (leb 48 u && leb u 57) || (leb 65 u && leb u 90) || (leb 97 u && leb u 122) || u == 45

unfoldable pub is_valid_udid : List ℕ → Bool
is_valid_udid [] = true
is_valid_udid (u ∷ us) = is_udid_byte u && is_valid_udid us

abbrev pub is_regular : Option Node → Bool
is_regular (some (file b)) = true
is_regular _ = false

abbrev pub result_of : Bool → ℤ
result_of true = pos 0
result_of false = not_found

abbrev pub negated : Option ℕ → ℤ
negated none = pos 0
negated (some zero) = pos 0
negated (some (suc n)) = negsuc n

module _ (sys : Sys) where
  -- The path of a record.
  unfoldable pub device_record_file : List ℕ → M (List ℕ)
  unfolding config_get_config_dir entry_path
  device_record_file udid = do
    config_path ← config_get_config_dir
    pure (entry_path config_path udid)

  abbrev pub has_record_in : List ℕ → ℤ → M ℤ
  has_record_in udid (negsuc _) = pure (negsuc 0)
  has_record_in udid (pos _) = do
    path ← device_record_file udid
    st ← stat sys path
    pure (if is_regular st then pos 1 else pos 0)

  unfoldable pub config_has_device_record : Option (List ℕ) → M ℤ
  unfolding config_create_config_dir device_record_file stat
  config_has_device_record none = pure (pos 0)
  config_has_device_record (some udid) = config_create_config_dir sys >>= has_record_in udid

  -- The old file goes first, then the new one is written.
  unfoldable pub replace_record : List ℕ → Plist → M ℤ
  unfolding device_record_file remove plist_write_to_file
  replace_record udid plist = do
    path ← device_record_file udid
    remove sys path
    ok ← plist_write_to_file sys plist path
    pure (result_of ok)

  abbrev pub store_in : List ℕ → Plist → ℤ → M ℤ
  store_in udid plist (negsuc _) = pure (negsuc 0)
  store_in udid plist (pos _) = replace_record udid plist

  abbrev pub store_record : List ℕ → Option Plist → M ℤ
  store_record udid (some (dict fs)) = config_create_config_dir sys >>= store_in udid (dict fs)
  store_record udid _ = pure invalid_argument

  -- `record_size` is the length of the buffer.
  unfoldable pub config_set_device_record : Option (List ℕ) → Option (List ℕ) → M ℤ
  unfolding is_valid_udid config_create_config_dir replace_record
  config_set_device_record (some udid) (some record_data) =
      if ltb (length record_data) 8
      then pure invalid_argument
      else if not (is_valid_udid udid)
      then pure invalid_argument
      else store_record udid (sys.from_memory record_data)
  config_set_device_record _ _ = pure invalid_argument

  abbrev pub read_record_in : List ℕ → ℤ → M (ℤ × Option (List ℕ))
  read_record_in udid (negsuc _) = pure (negsuc 0, none)
  read_record_in udid (pos _) = do
    path ← device_record_file udid
    record_data ← buffer_read_from_filename sys path
    pure (elim record_data [ none ↦ not_found | some b ↦ pos 0 ], record_data)

  -- The result code and the buffer.
  unfoldable pub config_get_device_record : List ℕ → M (ℤ × Option (List ℕ))
  unfolding config_create_config_dir device_record_file buffer_read_from_filename
  config_get_device_record udid = config_create_config_dir sys >>= read_record_in udid

  unfoldable pub config_remove_device_record : List ℕ → M ℤ
  unfolding device_record_file remove
  config_remove_device_record udid = do
    path ← device_record_file udid
    e ← remove sys path
    pure (negated e)

  unfoldable pub config_device_record_get_value : List ℕ → List ℕ → M (Option Plist)
  unfolding device_record_file internal_get_value
  config_device_record_get_value udid key = do
    path ← device_record_file udid
    internal_get_value sys path key

  unfoldable pub config_device_record_get_host_id : List ℕ → M (Option (List ℕ))
  unfolding config_device_record_get_value
  config_device_record_get_host_id udid = do
    value ← config_device_record_get_value udid (codes "HostID")
    pure (string_of value)
