-- ===== src/Conf/Values.antt =====
-- One key of a property list file, in src/conf.c: internal_set_value, config_set_value,
-- internal_get_value, config_get_value.
use usbmuxd.Prelude.{
  Bool, List, Option, eq_bytes, false, if◌then◌else◌, negsuc, none, pos, some, true, ℕ, ℤ,
}
use usbmuxd.Plist.{Fields, Plist, codes, dict, field, get_item, stop}
use usbmuxd.World.{M, Sys, pure, ◌>>=◌, ◌>>◌}
use usbmuxd.Conf.Path.{entry_path}
use usbmuxd.Conf.Files.{plist_read_from_file, plist_write_to_file, remove}
use usbmuxd.Conf.Dir.{config_create_config_dir, config_get_config_dir}

-- `plist_dict_remove_item`; the keys of a dictionary are distinct.
unfoldable pub without_key : List ℕ → Fields → Fields
without_key key stop = stop
without_key key (field k v fs) =
    if eq_bytes k key then without_key key fs else field k v (without_key key fs)

-- `plist_dict_set_item` of a new key: it becomes the last one.
unfoldable pub with_last : List ℕ → Plist → Fields → Fields
with_last key v stop = field key v stop
with_last key v (field k u fs) = field k u (with_last key v fs)

-- Both at once, on a node that may be no dictionary: the calls leave such a node as it is.
unfoldable pub set_item : List ℕ → Plist → Plist → Plist
unfolding without_key with_last
set_item key v (dict fs) = dict (with_last key v (without_key key fs))
set_item key v p = p

abbrev pub config_file_name : List ℕ
config_file_name = codes "SystemConfiguration"

abbrev pub item_of : List ℕ → Option Plist → Option Plist
item_of key none = none
item_of key (some p) = get_item p key

abbrev pub as_int : Bool → ℤ
as_int true = pos 1
as_int false = pos 0

module _ (sys : Sys) where
  -- What is written for the contents of the file, which is removed first where it was read.
  abbrev pub changed : List ℕ → List ℕ → Plist → Option Plist → M Plist
  changed config_file key value none = pure (dict (field key value stop))
  changed config_file key value (some p) = remove sys config_file >> pure (set_item key value p)

  unfoldable pub internal_set_value : List ℕ → List ℕ → Plist → M ℤ
  unfolding plist_read_from_file remove set_item plist_write_to_file
  internal_set_value config_file key value = do
    config ← plist_read_from_file sys config_file
    new ← changed config_file key value config
    ok ← plist_write_to_file sys new config_file
    pure (as_int ok)

  abbrev pub set_value_in : List ℕ → Plist → ℤ → M ℤ
  set_value_in key value (negsuc _) = pure (negsuc 0)
  set_value_in key value (pos _) = do
    config_path ← config_get_config_dir
    internal_set_value (entry_path config_path config_file_name) key value

  unfoldable pub config_set_value : List ℕ → Plist → M ℤ
  unfolding config_create_config_dir config_get_config_dir entry_path internal_set_value
  config_set_value key value = config_create_config_dir sys >>= set_value_in key value

  -- The result code, always 1, is not used.
  unfoldable pub internal_get_value : List ℕ → List ℕ → M (Option Plist)
  unfolding plist_read_from_file
  internal_get_value config_file key = do
    config ← plist_read_from_file sys config_file
    pure (item_of key config)

  unfoldable pub config_get_value : List ℕ → M (Option Plist)
  unfolding config_get_config_dir entry_path internal_get_value
  config_get_value key = do
    config_path ← config_get_config_dir
    internal_get_value (entry_path config_path config_file_name) key
