-- ===== src/Conf/Buid/Stable.antt =====
-- The BUID that src/conf.c stored is the one that it uses from then on.
use usbmuxd.Conf.Buid.{buid_or_new, config_get_system_buid, config_set_system_buid}
use usbmuxd.Prelude.{
  Bool, Bool-cases, List, Option, ap, eq_bytes, false, inl, inr, none, pos, refl, some, sym, ℕ, ℤ,
  ◌∙◌, ◌≡◌,
}
use usbmuxd.Plist.{Fields, Plist, codes, dict, field, get_item, lookup, stop, string, string_of}
use usbmuxd.World.{Ensures, Ensures-bind, Ensures-mono, PlistFiles, Sys, World, pure, ◌>>=◌}
use usbmuxd.Conf.Path.{entry_path}
use usbmuxd.Conf.Path.Distinct.{eq_bytes_self}
use usbmuxd.Conf.Files.{
  barred, parsed, plist_read_from_file, plist_write_to_file, read_file, remove,
}
use usbmuxd.Conf.Dir.{config_create_config_dir, config_get_config_dir}
use usbmuxd.Conf.Dir.Created.{Done, config_create_config_dir-Done, config_get_config_dir-Refines}
use usbmuxd.Conf.Values.{
  as_int, changed, config_file_name, config_get_value, config_set_value, internal_get_value,
  internal_set_value, item_of, set_item, set_value_in, with_last, without_key,
}
use usbmuxd.Conf.Abstract.{Refines, at_name}
use usbmuxd.Conf.Abstract.Calls.{
  Read, Removed, Written, plist_write_to_file-Written, read_file-Read, remove-Removed,
}

lookup-with_last :
    (key : List ℕ) (v : Plist) (fs : Fields)
    → lookup key (with_last key v (without_key key fs)) ≡ some v
unfolding with_last without_key
lookup-with_last key v stop = rw (eq_bytes_self key) refl
lookup-with_last key v (field k u fs) = elim (Bool-cases (eq_bytes k key)) [
  | inl e ↦ rw e (lookup-with_last key v fs)
  | inr e ↦ rw (e) (rw e (lookup-with_last key v fs))
]

get_item-set_item :
    (key : List ℕ) (v p : Plist) (fs : Fields)
    → p ≡ dict fs
    → get_item (set_item key v p) key ≡ some v
unfolding set_item
get_item-set_item key v p fs e = rw (e, lookup-with_last key v fs) refl

module _ (sys : Sys) (lawful : PlistFiles sys) (free : (n : ℕ) → sys.refused n ≡ none)
    (dir : List ℕ) where
  -- The store holds a property list with that value under the name of the configuration file.
  abbrev Holds : List ℕ → Plist → World → Type 0
  Holds key v w =
      (store : List ℕ → Option (List ℕ)) × Refines dir store w
      × (text : List ℕ) × (p : Plist) × (store config_file_name ≡ some text)
      × (sys.from_memory text ≡ some p)
      × (get_item p key ≡ some v)

  -- Before: there is no such file, it cannot be parsed, or it is a dictionary.
  abbrev pub NoOther : (List ℕ → Option (List ℕ)) → Type 0
  NoOther store =
      (p : Plist) → parsed sys (store config_file_name) ≡ some p → (fs : Fields) × (p ≡ dict fs)

  abbrev IsParsed : (List ℕ → Option (List ℕ)) → Option Plist → World → Type 0
  IsParsed store o w = Refines dir store w × (o ≡ parsed sys (store config_file_name))

  plist_read-IsParsed :
      (store : List ℕ → Option (List ℕ)) (w : World)
      → Refines dir store w
      → Ensures (IsParsed store) (plist_read_from_file sys (entry_path dir config_file_name) w)
  unfolding plist_read_from_file
  plist_read-IsParsed store w r =
      Ensures-bind (read_file sys (entry_path dir config_file_name)) (λ b. pure (parsed sys b))
        (Read dir store config_file_name sys) (IsParsed store) w
        (read_file-Read dir store config_file_name sys w r)
        (λ b w' h. (
          h.0,
          elim (h.1) [
            | inl found ↦ ap (parsed sys) found
            | inr barred ↦ absurd (barred.1.1 (free barred.1.0))
          ],
        ))

  abbrev InDir : (List ℕ → Option (List ℕ)) → List ℕ → World → Type 0
  InDir store d w = (d ≡ dir) × Refines dir store w

  config_get_value-Holds :
      (key : List ℕ) (v : Plist) (w : World)
      → Holds key v w
      → Ensures (λ o w'. o ≡ some v) (config_get_value sys key w)
  unfolding config_get_value internal_get_value
  config_get_value-Holds key v w (store, r, text, p, at, parse, found) =
      Ensures-bind config_get_config_dir _ (InDir store) (λ o w'. o ≡ some v) w
        (config_get_config_dir-Refines dir store sys w r)
        (λ d w' h. rw h.0 (
          Ensures-bind (plist_read_from_file sys (entry_path dir config_file_name))
            (λ c. pure (item_of key c)) (IsParsed store) (λ o w''. o ≡ some v) w'
            (plist_read-IsParsed store w' h.1)
            (λ c w'' k. ap (item_of key) (k.1 ∙ ap (parsed sys) at ∙ parse) ∙ found)))

  -- A write that succeeds leaves the value there.
  abbrev IfStored : List ℕ → Plist → ℤ → World → Type 0
  IfStored key v res w = res ≡ pos 1 → Holds key v w

  written-IfStored :
      (key : List ℕ) (v new : Plist) (base : List ℕ → Option (List ℕ)) (w : World)
      → get_item new key ≡ some v
      → Refines dir base w
      → Ensures (IfStored key v) (
          (plist_write_to_file sys new (entry_path dir config_file_name) >>= λ ok. pure (as_int ok))
            w)
  written-IfStored key v new base w found r =
      Ensures-bind (plist_write_to_file sys new (entry_path dir config_file_name))
        (λ ok. pure (as_int ok)) (Written dir base config_file_name sys new) (IfStored key v) w
        (plist_write_to_file-Written dir base config_file_name sys new w r) answer
    where
      answer :
          (ok : Bool) (w' : World)
          → Written dir base config_file_name sys new ok w'
          → IfStored key v (as_int ok) w'
      answer ok w' (inl (done, text, xml, r')) one = (
        at_name base config_file_name (some text),
        r',
        text,
        new,
        rw (eq_bytes_self config_file_name) refl,
        lawful.from_memory-to_xml new text xml,
        found,
      )
      answer ok w' (inr (not_done, r')) one =
          absurd (let e : as_int false ≡ pos 1 = sym (ap as_int not_done) ∙ one in cc)

  changed-Refines :
      (key : List ℕ) (v : Plist) (old : Option Plist) (store : List ℕ → Option (List ℕ)) (w : World)
      → ((p : Plist) → old ≡ some p → (fs : Fields) × (p ≡ dict fs))
      → Refines dir store w
      → Ensures
          (λ new w'.
            (get_item new key ≡ some v) × (base : List ℕ → Option (List ℕ)) × Refines dir base w')
          (changed sys (entry_path dir config_file_name) key v old w)
  changed-Refines key v none store w no_other r = (rw (eq_bytes_self key) refl, store, r)
  changed-Refines key v (some p) store w no_other r =
      Ensures-bind (remove sys (entry_path dir config_file_name)) (λ _. pure (set_item key v p))
        (Removed dir store config_file_name sys)
        (λ new w'.
          (get_item new key ≡ some v) × (base : List ℕ → Option (List ℕ)) × Refines dir base w')
        w (remove-Removed dir store config_file_name sys w r)
        (λ e w' h. elim h [
          | inl gone ↦ (
            get_item-set_item key v p (no_other p refl).0 (no_other p refl).1,
            at_name store config_file_name none,
            gone.1,
          )
          | inr kept ↦
              (get_item-set_item key v p (no_other p refl).0 (no_other p refl).1, store, kept.1)
        ])

  internal_set_value-IfStored :
      (key : List ℕ) (v : Plist) (store : List ℕ → Option (List ℕ)) (w : World)
      → NoOther store
      → Refines dir store w
      → Ensures (IfStored key v) (internal_set_value sys (entry_path dir config_file_name) key v w)
  unfolding internal_set_value
  internal_set_value-IfStored key v store w no_other r =
      Ensures-bind (plist_read_from_file sys (entry_path dir config_file_name)) _ (IsParsed store)
        (IfStored key v) w (plist_read-IsParsed store w r)
        (λ old w' h.
          Ensures-bind (changed sys (entry_path dir config_file_name) key v old) _
            (λ new w'.
              (get_item new key ≡ some v) × (base : List ℕ → Option (List ℕ)) × Refines dir base w')
            (IfStored key v) w'
            (changed-Refines key v old store w' (λ p e. no_other p (sym h.1 ∙ e)) h.0)
            (λ new w'' k. written-IfStored key v new k.1 w'' k.0 k.2))

  config_set_value-IfStored :
      (key : List ℕ) (v : Plist) (store : List ℕ → Option (List ℕ)) (w : World)
      → NoOther store
      → Refines dir store w
      → Ensures (IfStored key v) (config_set_value sys key v w)
  unfolding config_set_value
  config_set_value-IfStored key v store w no_other r =
      Ensures-bind (config_create_config_dir sys) (set_value_in sys key v) (Done dir store)
        (IfStored key v) w (config_create_config_dir-Done dir store sys w r)
        (λ res w' h. rw h.1 (
          Ensures-bind config_get_config_dir _ (InDir store) (IfStored key v) w'
            (config_get_config_dir-Refines dir store sys w' h.0)
            (λ d w'' k. rw k.0 (internal_set_value-IfStored key v store w'' no_other k.1))))

  -- Where the configuration file was no other property list than a dictionary and no call is
  -- refused: if config_set_system_buid reports success, config_get_system_buid returns that BUID.
  pub config_get_system_buid-config_set_system_buid :
      (system_buid : List ℕ) (store : List ℕ → Option (List ℕ)) (w : World)
      → NoOther store
      → Refines dir store w
      → Ensures
          (λ res w'.
            res ≡ pos 1 → Ensures (λ s w''. s ≡ system_buid) (config_get_system_buid sys w'))
          (config_set_system_buid sys system_buid w)
  unfolding config_set_system_buid config_get_system_buid
  config_get_system_buid-config_set_system_buid system_buid store w no_other r =
      Ensures-mono (IfStored (codes "SystemBUID") (string system_buid)) _
        (config_set_value sys (codes "SystemBUID") (string system_buid) w)
        (config_set_value-IfStored (codes "SystemBUID") (string system_buid) store w no_other r)
        (λ res w' stored one.
          Ensures-bind (config_get_value sys (codes "SystemBUID"))
            (λ value. buid_or_new sys (string_of value)) (λ o w''. o ≡ some (string system_buid))
            (λ s w''. s ≡ system_buid) w'
            (config_get_value-Holds (codes "SystemBUID") (string system_buid) w' (stored one))
            (λ o w'' e. rw e refl))
