-- ===== src/Conf/Frame.antt =====
-- The code of src/conf.c for the BUID touches the file system and nothing else of the daemon.
use usbmuxd.Prelude.{
  Bool, Bool-cases, List, Option, false, if◌then◌else◌, inl, inr, negsuc, none, pos, some, suc,
  true, zero, ℕ, ℤ, ◌==◌,
}
use usbmuxd.Plist.{Plist, codes, string, string_of}
use usbmuxd.World.{Keeps, Keeps-bind, M, Node, Sys, World, pure}
use usbmuxd.Conf.Path.{dirname, entry_path}
use usbmuxd.Conf.Files.{
  exists, made, mkdir, plist_read_from_file, plist_write_to_file, read_file, remove, removed, stat,
  store_text, unless,
}
use usbmuxd.Conf.Dir.{
  config_create_config_dir, config_get_config_dir, initialised, levels, mkdir_with_parents,
}
use usbmuxd.Conf.Uuid.{config_generate_system_buid, config_generate_uuid}
use usbmuxd.Conf.Values.{
  as_int, changed, config_file_name, config_get_value, config_set_value, internal_get_value,
  internal_set_value, item_of, set_item, set_value_in,
}
use usbmuxd.Conf.Buid.{buid_or_new, config_get_system_buid, config_set_system_buid}

-- For a predicate that does not look at the disk, the directory in use, and the number of calls.
module _ (sys : Sys) (I : World → Type 0)
    (ignores : (w : World) (n : ℕ) (d : List ℕ → Option Node) (c : Option (List ℕ))
      → I w
      → I (record w { calls = n; disk = d; config_dir = c })) where
  made-Keeps :
      (p : List ℕ) (node : Option Node) (parent : Bool) (e : Option ℕ)
      → Keeps I (made p node parent e)
  made-Keeps p (some n) parent e w i = i
  made-Keeps p none false e w i = i
  made-Keeps p none true (some n) w i = i
  made-Keeps p none true none w i = ignores w w.calls _ w.config_dir i

  removed-Keeps : (p : List ℕ) (node : Option Node) (e : Option ℕ) → Keeps I (removed p node e)
  removed-Keeps p none e w i = i
  removed-Keeps p (some n) (some e) w i = i
  removed-Keeps p (some n) none w i = ignores w w.calls _ w.config_dir i

  store_text-Keeps :
      (p : List ℕ) (free : Bool) (text : Option (List ℕ)) → Keeps I (store_text sys p free text)
  store_text-Keeps p true (some b) w i = ignores w w.calls _ w.config_dir i
  store_text-Keeps p true none w i = i
  store_text-Keeps p false text w i = i

  called : (w : World) → I w → I (record w { calls = suc w.calls })
  called w i = ignores w (suc w.calls) w.disk w.config_dir i

  mkdir-Keeps : (p : List ℕ) → Keeps I (mkdir sys p)
  unfolding mkdir
  mkdir-Keeps p w i = made-Keeps p _ _ _ (record w { calls = suc w.calls }) (called w i)

  remove-Keeps : (p : List ℕ) → Keeps I (remove sys p)
  unfolding remove
  remove-Keeps p w i = removed-Keeps p _ _ (record w { calls = suc w.calls }) (called w i)

  write-Keeps : (p : Plist) (path : List ℕ) → Keeps I (plist_write_to_file sys p path)
  unfolding plist_write_to_file
  write-Keeps p path w i =
      store_text-Keeps path _ (sys.to_xml p) (record w { calls = suc w.calls }) (called w i)

  read-Keeps : (p : List ℕ) → Keeps I (plist_read_from_file sys p)
  unfolding plist_read_from_file read_file
  read-Keeps p w i = called w i

  level-Keeps :
      (fuel : ℕ) (p : List ℕ) (e : Option ℕ)
      → Keeps I (mkdir_with_parents sys fuel (dirname p))
      → Keeps I (elim e as (λ _. M ℤ) [
        | none ↦ pure (pos 0)
        | some n ↦ if n == exists then pure (pos 0) else mkdir_with_parents sys fuel (dirname p)
      ])
  level-Keeps fuel p none next w i = i
  level-Keeps fuel p (some n) next w i = elim (Bool-cases (n == exists)) [
    | inl e ↦ rw e i
    | inr e ↦ rw e (next w i)
  ]

  mkdir_with_parents-Keeps : (fuel : ℕ) (p : List ℕ) → Keeps I (mkdir_with_parents sys fuel p)
  unfolding mkdir_with_parents
  mkdir_with_parents-Keeps zero p w i = tt
  mkdir_with_parents-Keeps (suc fuel) p w i =
      Keeps-bind I (mkdir sys p) _ (mkdir-Keeps p)
        (λ e. level-Keeps fuel p e (mkdir_with_parents-Keeps fuel (dirname p))) w i

  initialised-Keeps : (o : Option (List ℕ)) → Keeps I (initialised o)
  unfolding initialised
  initialised-Keeps (some d) w i = i
  initialised-Keeps none w i = ignores w w.calls w.disk _ i

  get_dir-Keeps : Keeps I config_get_config_dir
  unfolding config_get_config_dir
  get_dir-Keeps w i = initialised-Keeps w.config_dir w i

  pub create_dir-Keeps : Keeps I (config_create_config_dir sys)
  unfolding config_create_config_dir stat
  create_dir-Keeps = Keeps-bind I config_get_config_dir _ get_dir-Keeps (λ d w i.
      found d (unless (sys.refused w.calls) (w.disk d)) (record w { calls = suc w.calls })
        (called w i))
    where
      found :
          (d : List ℕ) (st : Option Node)
          → Keeps I (elim st as (λ _. M ℤ) [
            | some _ ↦ pure (pos 0)
            | none ↦ mkdir_with_parents sys (levels sys d) d
          ])
      found d (some n) w i = i
      found d none w i = mkdir_with_parents-Keeps (levels sys d) d w i

  changed-Keeps :
      (path key : List ℕ) (v : Plist) (o : Option Plist) → Keeps I (changed sys path key v o)
  changed-Keeps path key v none w i = i
  changed-Keeps path key v (some p) w i =
      Keeps-bind I (remove sys path) (λ _. pure (set_item key v p)) (remove-Keeps path)
        (λ e w' i'. i') w i

  internal_set-Keeps : (path key : List ℕ) (v : Plist) → Keeps I (internal_set_value sys path key v)
  unfolding internal_set_value
  internal_set-Keeps path key v =
      Keeps-bind I (plist_read_from_file sys path) _ (read-Keeps path) (λ o.
        Keeps-bind I (changed sys path key v o) _ (changed-Keeps path key v o) (λ new.
          Keeps-bind I (plist_write_to_file sys new path) (λ ok. pure (as_int ok))
            (write-Keeps new path) (λ ok w i. i)))

  set_in-Keeps : (key : List ℕ) (v : Plist) (res : ℤ) → Keeps I (set_value_in sys key v res)
  set_in-Keeps key v (negsuc n) w i = i
  set_in-Keeps key v (pos n) w i =
      Keeps-bind I config_get_config_dir _ get_dir-Keeps
        (λ d. internal_set-Keeps (entry_path d config_file_name) key v) w i

  config_set_value-Keeps : (key : List ℕ) (v : Plist) → Keeps I (config_set_value sys key v)
  unfolding config_set_value
  config_set_value-Keeps key v =
      Keeps-bind I (config_create_config_dir sys) (set_value_in sys key v) create_dir-Keeps
        (set_in-Keeps key v)

  config_get_value-Keeps : (key : List ℕ) → Keeps I (config_get_value sys key)
  unfolding config_get_value internal_get_value
  config_get_value-Keeps key = Keeps-bind I config_get_config_dir _ get_dir-Keeps (λ d.
      Keeps-bind I (plist_read_from_file sys (entry_path d config_file_name))
        (λ c. pure (item_of key c)) (read-Keeps (entry_path d config_file_name)) (λ c w i. i))

  buid_or_new-Keeps : (o : Option (List ℕ)) → Keeps I (buid_or_new sys o)
  unfolding config_generate_system_buid config_generate_uuid config_set_system_buid
  buid_or_new-Keeps (some s) w i = i
  buid_or_new-Keeps none w i =
      Keeps-bind I (config_generate_system_buid sys) _ generate
        (λ s. Keeps-bind I (config_set_system_buid sys s) (λ _. pure s) (set s) (λ r w' i'. i')) w i
    where
      generate : Keeps I (config_generate_system_buid sys)
      generate w i = called w i

      set : (s : List ℕ) → Keeps I (config_set_system_buid sys s)
      set s = config_set_value-Keeps (codes "SystemBUID") (string s)

  -- config_get_system_buid keeps what does not look at the file system.
  pub config_get_system_buid-Keeps : Keeps I (config_get_system_buid sys)
  unfolding config_get_system_buid
  config_get_system_buid-Keeps =
      Keeps-bind I (config_get_value sys (codes "SystemBUID")) (λ v. buid_or_new sys (string_of v))
        (config_get_value-Keeps (codes "SystemBUID")) (λ v. buid_or_new-Keeps (string_of v))
