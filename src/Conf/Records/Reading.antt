-- ===== src/Conf/Records/Reading.antt =====
-- The reading and the removal of a pairing record in src/conf.c implement those of a store of texts
-- by name.
use usbmuxd.Prelude.{List, Option, ap, inl, inr, none, pos, refl, some, ℕ, ℤ, ◌≡◌, ◌≢◌, ◌⊎◌}
use usbmuxd.World.{Ensures, Ensures-bind, Sys, World, pure, ◌>>=◌}
use usbmuxd.Conf.Path.{entry_path}
use usbmuxd.Conf.Files.{barred, buffer_read_from_filename, buffered, read_file, remove}
use usbmuxd.Conf.Dir.{config_create_config_dir}
use usbmuxd.Conf.Dir.Created.{Done, config_create_config_dir-Done}
use usbmuxd.Conf.Abstract.{Refines, at_name}
use usbmuxd.Conf.Abstract.Calls.{IsError, Read, Removed, read_file-Read, remove-Removed}
use usbmuxd.Conf.Records.{
  config_get_device_record, config_remove_device_record, device_record_file, negated, not_found,
  read_record_in,
}
use usbmuxd.Conf.Records.Refinement.{AtPath, device_record_file-AtPath}

module _ (sys : Sys) (dir : List ℕ) (store : List ℕ → Option (List ℕ)) (udid : List ℕ) where
  -- What a reader is given: the text of the name as a buffer, or nothing and an error.
  abbrev pub GetAnswer : ℤ × Option (List ℕ) → World → Type 0
  GetAnswer a w =
      Refines dir store w
      × (((a.1 ≡ buffered sys (store udid))
            × (a.0 ≡ (elim (a.1) [ none ↦ not_found | some b ↦ pos 0 ])))
          ⊎ ((a ≡ (not_found, none)) × ((n : ℕ) × (sys.refused n ≢ none))))

  buffered-GetAnswer :
      (b : Option (List ℕ)) (w : World)
      → Read dir store udid sys b w
      → GetAnswer (elim (buffered sys b) [ none ↦ not_found | some x ↦ pos 0 ], buffered sys b) w
  buffered-GetAnswer b w h = elim (h.1) [
    | inl found ↦ (h.0, inl (ap (buffered sys) found, refl))
    | inr barred ↦ (h.0, inr (rw (barred.0) refl, barred.1))
  ]

  buffer_read-GetAnswer :
      (p : List ℕ) (w : World)
      → AtPath sys dir store udid p w
      → Ensures GetAnswer (
          (buffer_read_from_filename sys p >>= λ b.
          pure (elim b [ none ↦ not_found | some x ↦ pos 0 ], b))
            w)
  unfolding buffer_read_from_filename
  buffer_read-GetAnswer p w h = rw h.0 (
      Ensures-bind (read_file sys (entry_path dir udid))
        (λ b. pure (elim (buffered sys b) [ none ↦ not_found | some x ↦ pos 0 ], buffered sys b))
        (Read dir store udid sys) GetAnswer w (read_file-Read dir store udid sys w h.1)
        buffered-GetAnswer)

  -- A read leaves the store as it is and answers with what it holds for the name.
  pub config_get_device_record-Refines :
      (w : World) → Refines dir store w → Ensures GetAnswer (config_get_device_record sys udid w)
  unfolding config_get_device_record
  config_get_device_record-Refines w r =
      Ensures-bind (config_create_config_dir sys) (read_record_in sys udid) (Done dir store)
        GetAnswer w (config_create_config_dir-Done dir store sys w r)
        (λ res w' h. rw h.1 (
          Ensures-bind (device_record_file sys udid) _ (AtPath sys dir store udid) GetAnswer w'
            (device_record_file-AtPath sys dir store udid w' h.0) buffer_read-GetAnswer))

  -- What a removal may answer, and do to the store.
  abbrev pub RemoveAnswer : ℤ → World → Type 0
  RemoveAnswer a w =
      ((a ≡ pos 0) × Refines dir (at_name store udid none) w)
      ⊎ (((n : ℕ) × (a ≡ negated (some n)) × IsError dir store udid sys n) × Refines dir store w)

  negated-RemoveAnswer :
      (e : Option ℕ) (w : World) → Removed dir store udid sys e w → RemoveAnswer (negated e) w
  negated-RemoveAnswer e w h = elim h [
    | inl gone ↦ inl (ap negated gone.0, gone.1)
    | inr kept ↦ inr ((kept.0.0, ap negated kept.0.1, kept.0.2), kept.1)
  ]

  -- A removal answers 0 and the store forgets the name, or it answers an error number, negated,
  -- and the store is as it was.
  pub config_remove_device_record-Refines :
      (w : World)
      → Refines dir store w
      → Ensures RemoveAnswer (config_remove_device_record sys udid w)
  unfolding config_remove_device_record
  config_remove_device_record-Refines w r =
      Ensures-bind (device_record_file sys udid) _ (AtPath sys dir store udid) RemoveAnswer w
        (device_record_file-AtPath sys dir store udid w r)
        (λ p w' h. rw h.0 (
          Ensures-bind (remove sys (entry_path dir udid)) _ (Removed dir store udid sys)
            RemoveAnswer w' (remove-Removed dir store udid sys w' h.1) negated-RemoveAnswer))
