-- ===== src/Conf/Records/Refinement.antt =====
-- The record functions of src/conf.c implement a store of texts by name.
use usbmuxd.Prelude.{
  Bool, Bool-cases, List, Option, ap, inl, inr, length, ltb, none, pos, refl, some, true, ℕ, ℤ, ◌≡◌,
}
use usbmuxd.Plist.{Fields, Plist, array, boolean, bytes, dict, string, uint}
use usbmuxd.World.{Ensures, Ensures-bind, Sys, World, pure, ◌>>=◌}
use usbmuxd.Conf.Path.{entry_path}
use usbmuxd.Conf.Files.{plist_write_to_file, remove}
use usbmuxd.Conf.Dir.{config_create_config_dir, config_get_config_dir}
use usbmuxd.Conf.Dir.Created.{Done, config_create_config_dir-Done, config_get_config_dir-Refines}
use usbmuxd.Conf.Abstract.{Refines, Refines-cong, at_name, at_name-at_name}
use usbmuxd.Conf.Abstract.Calls.{Removed, Written, plist_write_to_file-Written, remove-Removed}
use usbmuxd.Conf.Records.{
  config_set_device_record, device_record_file, invalid_argument, is_valid_udid, not_found,
  replace_record, result_of, store_in, store_record,
}

-- What a save may answer and do to the store: the new text under a valid name, nothing, or, where
-- the new text could not be written, the loss of the old one.
pub data Saved (sys : Sys) (store : List ℕ → Option (List ℕ)) (udid record_data : List ℕ)
    : ℤ → (List ℕ → Option (List ℕ)) → Type 0 where
  written :
      (fs : Fields) (text : List ℕ)
      → is_valid_udid udid ≡ true
      → sys.from_memory record_data ≡ some (dict fs)
      → sys.to_xml (dict fs) ≡ some text
      → Saved sys store udid record_data (pos 0) (at_name store udid (some text))
  refused : Saved sys store udid record_data invalid_argument store
  unwritten : Saved sys store udid record_data not_found store
  lost : Saved sys store udid record_data not_found (at_name store udid none)

module _ (sys : Sys) (dir : List ℕ) where
  -- A run of the code, and what it does to the store.
  abbrev pub SaveAnswer : (List ℕ → Option (List ℕ)) → List ℕ → List ℕ → ℤ → World → Type 0
  SaveAnswer store udid record_data r w =
      (store' : List ℕ → Option (List ℕ)) × Saved sys store udid record_data r store'
      × Refines dir store' w

  module _ (store : List ℕ → Option (List ℕ)) (udid : List ℕ) where
    abbrev pub AtPath : List ℕ → World → Type 0
    AtPath p w = (p ≡ entry_path dir udid) × Refines dir store w

    pub device_record_file-AtPath :
        (w : World) → Refines dir store w → Ensures AtPath (device_record_file sys udid w)
    unfolding device_record_file
    device_record_file-AtPath w r =
        Ensures-bind config_get_config_dir _ (λ d w'. (d ≡ dir) × Refines dir store w') AtPath w
          (config_get_config_dir-Refines dir store sys w r)
          (λ d w' h. (ap (λ x. entry_path x udid) h.0, h.1))

    module _ (record_data : List ℕ) (fs : Fields) (valid : is_valid_udid udid ≡ true)
        (parse : sys.from_memory record_data ≡ some (dict fs)) where
      write_after :
          (base : List ℕ → Option (List ℕ)) (w : World)
          → Refines dir base w
          → ((q : List ℕ) (v : Option (List ℕ)) → at_name base udid v q ≡ at_name store udid v q)
          → Saved sys store udid record_data not_found base
          → Ensures (SaveAnswer store udid record_data) (
              (plist_write_to_file sys (dict fs) (entry_path dir udid) >>= λ ok.
              pure (result_of ok))
                w)
      write_after base w r same kept =
          Ensures-bind (plist_write_to_file sys (dict fs) (entry_path dir udid))
            (λ ok. pure (result_of ok)) (Written dir base udid sys (dict fs))
            (SaveAnswer store udid record_data) w
            (plist_write_to_file-Written dir base udid sys (dict fs) w r) answer
        where
          answer :
              (ok : Bool) (w' : World)
              → Written dir base udid sys (dict fs) ok w'
              → SaveAnswer store udid record_data (result_of ok) w'
          answer ok w' (inl (done, text, xml, r')) = rw done (
            at_name store udid (some text),
            written fs text valid parse xml,
            Refines-cong dir _ _ w' (λ q. same q (some text)) r',
          )
          answer ok w' (inr (not_done, r')) = rw not_done (base, kept, r')

      replaced-SaveAnswer :
          (p : List ℕ) (w : World)
          → AtPath p w
          → Ensures (SaveAnswer store udid record_data) (
              (remove sys p >>= λ e.
              plist_write_to_file sys (dict fs) p >>= λ ok. pure (result_of ok))
                w)
      replaced-SaveAnswer p w h = rw h.0 (
          Ensures-bind (remove sys (entry_path dir udid)) _ (Removed dir store udid sys)
            (SaveAnswer store udid record_data) w (remove-Removed dir store udid sys w h.1) answer)
        where
          answer :
              (e : Option ℕ) (w' : World)
              → Removed dir store udid sys e w'
              → Ensures (SaveAnswer store udid record_data) (
                  (plist_write_to_file sys (dict fs) (entry_path dir udid) >>= λ ok.
                  pure (result_of ok))
                    w')
          answer e w' (inl gone) =
              write_after (at_name store udid none) w' gone.1
                (λ q v. at_name-at_name store udid none v q) lost
          answer e w' (inr kept) = write_after store w' kept.1 (λ q v. refl) unwritten

      replace_record-SaveAnswer :
          (w : World)
          → Refines dir store w
          → Ensures (SaveAnswer store udid record_data) (replace_record sys udid (dict fs) w)
      unfolding replace_record
      replace_record-SaveAnswer w r =
          Ensures-bind (device_record_file sys udid) _ AtPath (SaveAnswer store udid record_data) w
            (device_record_file-AtPath w r) replaced-SaveAnswer

      store_dict-SaveAnswer :
          (w : World)
          → Refines dir store w
          → Ensures
              (SaveAnswer store udid record_data)
              ((config_create_config_dir sys >>= store_in sys udid (dict fs)) w)
      store_dict-SaveAnswer w r =
          Ensures-bind (config_create_config_dir sys) (store_in sys udid (dict fs)) (Done dir store)
            (SaveAnswer store udid record_data) w (config_create_config_dir-Done dir store sys w r)
            (λ res w' h. rw h.1 (replace_record-SaveAnswer w' h.0))

    refuse :
        (record_data : List ℕ) (w : World)
        → Refines dir store w
        → SaveAnswer store udid record_data invalid_argument w
    refuse record_data w r = (store, refused, r)

    store_record-SaveAnswer :
        (record_data : List ℕ) (parse : Option Plist) (w : World)
        → is_valid_udid udid ≡ true
        → sys.from_memory record_data ≡ parse
        → Refines dir store w
        → Ensures (SaveAnswer store udid record_data) (store_record sys udid parse w)
    store_record-SaveAnswer record_data (some (dict fs)) w valid e r =
        store_dict-SaveAnswer record_data fs valid e w r
    store_record-SaveAnswer record_data (some (boolean b)) w valid e r = refuse record_data w r
    store_record-SaveAnswer record_data (some (uint b)) w valid e r = refuse record_data w r
    store_record-SaveAnswer record_data (some (string b)) w valid e r = refuse record_data w r
    store_record-SaveAnswer record_data (some (bytes b)) w valid e r = refuse record_data w r
    store_record-SaveAnswer record_data (some (array b)) w valid e r = refuse record_data w r
    store_record-SaveAnswer record_data none w valid e r = refuse record_data w r

    pub config_set_device_record-Refines :
        (record_data : List ℕ) (w : World)
        → Refines dir store w
        → Ensures
            (SaveAnswer store udid record_data)
            (config_set_device_record sys (some udid) (some record_data) w)
    unfolding config_set_device_record
    config_set_device_record-Refines record_data w r =
        elim (Bool-cases (ltb (length record_data) 8)) [
          | inl short ↦ rw short (refuse record_data w r)
          | inr long ↦ elim (Bool-cases (is_valid_udid udid)) [
            | inl valid ↦
                rw (long, valid)
                  (store_record-SaveAnswer record_data (sys.from_memory record_data) w valid refl r)
            | inr bad ↦ rw (long, bad) (refuse record_data w r)
          ]
        ]
