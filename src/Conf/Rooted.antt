-- ===== src/Conf/Rooted.antt =====
-- The code of src/conf.c that the preflight worker calls comes to an end, with the configuration
-- directory in order still.
use usbmuxd.Prelude.{
  List, Option, [], ap, if◌then◌else◌, inl, inr, none, pos, refl, some, suc, ℕ, ℤ, ◌∙◌, ◌∷◌, ◌≡◌,
}
use usbmuxd.Plist.{Plist, codes, string, string_of}
use usbmuxd.World.{
  Ensures, Ensures-bind, Ensures-mono, M, Node, Returns, Returns-bind, Sys, World, directory, file,
  pure, ◌>>=◌,
}
use usbmuxd.Conf.Path.{dir_sep, dot, entry_path}
use usbmuxd.Conf.Files.{
  contents, parsed, plist_read_from_file, plist_write_to_file, read_file, remove, stat, unless,
}
use usbmuxd.Conf.Dir.{config_create_config_dir, config_get_config_dir}
use usbmuxd.Conf.Dir.Created.{Done, config_create_config_dir-Done, config_get_config_dir-Refines}
use usbmuxd.Conf.Uuid.{config_generate_system_buid, config_generate_uuid}
use usbmuxd.Conf.Values.{
  as_int, changed, config_file_name, config_get_value, config_set_value, internal_get_value,
  internal_set_value, item_of, set_item, set_value_in,
}
use usbmuxd.Conf.Buid.{buid_or_new, config_get_system_buid, config_set_system_buid}
use usbmuxd.Conf.Records.{
  config_device_record_get_host_id, config_device_record_get_value, config_has_device_record,
  device_record_file, has_record_in, is_regular,
}
use usbmuxd.Conf.Records.Refinement.{AtPath, device_record_file-AtPath}
use usbmuxd.Conf.Abstract.{Refines, at_name, called-Refines, dir_of}
use usbmuxd.Conf.Abstract.Calls.{
  Read, Removed, Written, plist_write_to_file-Written, read_file-Read, remove-Removed,
}

-- Some store of texts stands in the directory.
abbrev pub Rooted : List ℕ → World → Type 0
Rooted dir w = (store : List ℕ → Option (List ℕ)) × Refines dir store w

-- A change of anything but the disk and the directory in use.
pub same-Rooted :
    {dir : List ℕ} (w w' : World)
    → w'.disk ≡ w.disk
    → w'.config_dir ≡ w.config_dir
    → Rooted dir w
    → Rooted dir w'
same-Rooted {dir} w w' d c (store, r) = (
  store,
  record {
    in_dir = ap dir_of c ∙ r.in_dir;
    root = ap (λ f. f (dir_sep ∷ [])) d ∙ r.root;
    here = ap (λ f. f (dot ∷ [])) d ∙ r.here;
    files = λ id. ap (λ f. contents (f (entry_path dir id))) d ∙ r.files id;
  },
)

module _ (sys : Sys) (dir : List ℕ) where
  abbrev R : World → Type 0
  R = Rooted dir

  in_dir-Returns :
      {A : Type 0} (f : List ℕ → M A) → Returns R (f dir) → Returns R (config_get_config_dir >>= f)
  in_dir-Returns f next w (store, r) =
      Ensures-bind config_get_config_dir f (λ d w'. (d ≡ dir) × Refines dir store w') (λ a w'. R w')
        w (config_get_config_dir-Refines dir store sys w r)
        (λ d w' h. rw h.0 (next w' (store, h.1)))

  remove-Returns : (id : List ℕ) → Returns R (remove sys (entry_path dir id))
  remove-Returns id w (store, r) =
      Ensures-mono (Removed dir store id sys) (λ a w'. R w') (remove sys (entry_path dir id) w)
        (remove-Removed dir store id sys w r)
        (λ e w' h. elim h [
          | inl gone ↦ (at_name store id none, gone.1)
          | inr kept ↦ (store, kept.1)
        ])

  write-Returns :
      (p : Plist) (id : List ℕ) → Returns R (plist_write_to_file sys p (entry_path dir id))
  write-Returns p id w (store, r) =
      Ensures-mono (Written dir store id sys p) (λ a w'. R w')
        (plist_write_to_file sys p (entry_path dir id) w)
        (plist_write_to_file-Written dir store id sys p w r)
        (λ ok w' h. elim h [
          | inl (done, text, xml, r') ↦ (at_name store id (some text), r')
          | inr kept ↦ (store, kept.1)
        ])

  read-Returns : (id : List ℕ) → Returns R (plist_read_from_file sys (entry_path dir id))
  unfolding plist_read_from_file
  read-Returns id w (store, r) =
      Ensures-bind (read_file sys (entry_path dir id)) (λ b. pure (parsed sys b))
        (Read dir store id sys) (λ a w'. R w') w (read_file-Read dir store id sys w r)
        (λ b w' h. (store, h.0))

  create_dir-Returns :
      {A : Type 0} (f : ℤ → M A)
      → Returns R (f (pos 0))
      → Returns R (config_create_config_dir sys >>= f)
  create_dir-Returns f next w (store, r) =
      Ensures-bind (config_create_config_dir sys) f (Done dir store) (λ a w'. R w') w
        (config_create_config_dir-Done dir store sys w r)
        (λ res w' h. rw h.1 (next w' (store, h.0)))

  changed-Returns :
      (id key : List ℕ) (v : Plist) (o : Option Plist)
      → Returns R (changed sys (entry_path dir id) key v o)
  changed-Returns id key v none w i = i
  changed-Returns id key v (some p) w i =
      Returns-bind R (remove sys (entry_path dir id)) (λ _. pure (set_item key v p))
        (remove-Returns id) (λ e w' i'. i') w i

  internal_set-Returns :
      (id key : List ℕ) (v : Plist) → Returns R (internal_set_value sys (entry_path dir id) key v)
  unfolding internal_set_value
  internal_set-Returns id key v =
      Returns-bind R (plist_read_from_file sys (entry_path dir id)) _ (read-Returns id) (λ o.
        Returns-bind R (changed sys (entry_path dir id) key v o) _ (changed-Returns id key v o)
          (λ new.
            Returns-bind R (plist_write_to_file sys new (entry_path dir id))
              (λ ok. pure (as_int ok)) (write-Returns new id) (λ ok w i. i)))

  internal_get-Returns :
      (id key : List ℕ) → Returns R (internal_get_value sys (entry_path dir id) key)
  unfolding internal_get_value
  internal_get-Returns id key =
      Returns-bind R (plist_read_from_file sys (entry_path dir id)) (λ c. pure (item_of key c))
        (read-Returns id) (λ c w i. i)

  set_buid-Returns : (s : List ℕ) → Returns R (config_set_system_buid sys s)
  unfolding config_set_system_buid config_set_value
  set_buid-Returns s =
      create_dir-Returns (set_value_in sys (codes "SystemBUID") (string s))
        (in_dir-Returns _ (internal_set-Returns config_file_name (codes "SystemBUID") (string s)))

  generate-Returns : Returns R (config_generate_system_buid sys)
  unfolding config_generate_system_buid config_generate_uuid
  generate-Returns w (store, r) = (store, called-Refines (suc w.calls) r)

  buid_or_new-Returns : (o : Option (List ℕ)) → Returns R (buid_or_new sys o)
  buid_or_new-Returns (some s) w i = i
  buid_or_new-Returns none w i =
      Returns-bind R (config_generate_system_buid sys) _ generate-Returns
        (λ s.
          Returns-bind R (config_set_system_buid sys s) (λ _. pure s) (set_buid-Returns s)
            (λ r w' i'. i'))
        w i

  -- config_get_system_buid returns, whatever calls are refused.
  pub config_get_system_buid-Rooted : Returns R (config_get_system_buid sys)
  unfolding config_get_system_buid config_get_value
  config_get_system_buid-Rooted =
      Returns-bind R (config_get_value sys (codes "SystemBUID"))
        (λ v. buid_or_new sys (string_of v))
        (in_dir-Returns _ (internal_get-Returns config_file_name (codes "SystemBUID")))
        (λ v. buid_or_new-Returns (string_of v))

  at_path-Returns :
      {A : Type 0} (udid : List ℕ) (f : List ℕ → M A)
      → Returns R (f (entry_path dir udid))
      → Returns R (device_record_file sys udid >>= f)
  at_path-Returns udid f next w (store, r) =
      Ensures-bind (device_record_file sys udid) f (AtPath sys dir store udid) (λ a w'. R w') w
        (device_record_file-AtPath sys dir store udid w r) (λ p w' h. rw h.0 (next w' (store, h.1)))

  -- config_device_record_get_host_id returns.
  pub get_host_id-Rooted : (udid : List ℕ) → Returns R (config_device_record_get_host_id sys udid)
  unfolding config_device_record_get_host_id config_device_record_get_value
  get_host_id-Rooted udid =
      Returns-bind R (config_device_record_get_value sys udid (codes "HostID"))
        (λ v. pure (string_of v))
        (at_path-Returns udid _ (internal_get-Returns udid (codes "HostID"))) (λ v w i. i)

  -- Without a text of that name there is no record; the store stays.
  pub config_has_device_record-Missing :
      (udid : List ℕ) (store : List ℕ → Option (List ℕ)) (w : World)
      → Refines dir store w
      → Ensures
          (λ has w'. Refines dir store w' × (store udid ≡ none → has ≡ pos 0))
          (config_has_device_record sys (some udid) w)
  unfolding config_has_device_record stat
  config_has_device_record-Missing udid store w r =
      Ensures-bind (config_create_config_dir sys) (has_record_in sys udid) (Done dir store) _ w
        (config_create_config_dir-Done dir store sys w r)
        (λ res w' h. rw h.1 (
          Ensures-bind (device_record_file sys udid) _ (AtPath sys dir store udid) _ w'
            (device_record_file-AtPath sys dir store udid w' h.0)
            (λ p w'' k.
              rw k.0 (called-Refines _ k.1, λ gone. regular_not _ _ (k.1.files udid ∙ gone)))))
    where
      regular_not :
          (e : Option ℕ) (n : Option Node)
          → contents n ≡ none
          → (if is_regular (unless e n) then pos 1 else pos 0) ≡ pos 0
      regular_not (some x) n h = refl
      regular_not none none h = refl
      regular_not none (some directory) h = refl
      regular_not none (some (file b)) h = absurd cc
