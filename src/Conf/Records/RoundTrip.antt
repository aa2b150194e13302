-- ===== src/Conf/Records/RoundTrip.antt =====
-- A pairing record that src/conf.c saved is the one that it reads back.
use usbmuxd.Prelude.{List, Option, ap, inl, inr, none, pos, refl, some, sym, ℕ, ℤ, ◌∙◌, ◌≡◌}
use usbmuxd.Plist.{Plist, dict}
use usbmuxd.World.{Ensures, Ensures-mono, PlistFiles, Sys, World}
use usbmuxd.Conf.Path.Distinct.{eq_bytes_self}
use usbmuxd.Conf.Files.{buffered}
use usbmuxd.Conf.Records.{config_get_device_record, config_set_device_record, not_found}
use usbmuxd.Conf.Records.Reading.{GetAnswer, config_get_device_record-Refines}
use usbmuxd.Conf.Records.Refinement.{
  SaveAnswer, Saved, config_set_device_record-Refines, lost, refused, unwritten, written,
}
use usbmuxd.Conf.Abstract.{Refines, at_name}

module _ (sys : Sys) (lawful : PlistFiles sys) (free : (n : ℕ) → sys.refused n ≡ none)
    (dir udid record_data : List ℕ) where
  -- The answer of a reader: a text of the same property list.
  abbrev pub SameRecord : ℤ × Option (List ℕ) → World → Type 0
  SameRecord a w =
      (text : List ℕ) × (a ≡ (pos 0, some text))
      × (sys.from_memory text ≡ sys.from_memory record_data)

  read_back :
      (text : List ℕ) (p : Plist) (store : List ℕ → Option (List ℕ)) (w : World)
      → sys.from_memory record_data ≡ some p
      → sys.to_xml p ≡ some text
      → Refines dir (at_name store udid (some text)) w
      → Ensures SameRecord (config_get_device_record sys udid w)
  read_back text p store w parse xml r =
      Ensures-mono (GetAnswer sys dir new udid) SameRecord (config_get_device_record sys udid w)
        (config_get_device_record-Refines sys dir new udid w r) same
    where
      new : List ℕ → Option (List ℕ)
      new = at_name store udid (some text)

      found : buffered sys (new udid) ≡ some text
      found = rw (eq_bytes_self udid) (lawful.buffer_of-to_xml p text xml)

      same :
          (a : ℤ × Option (List ℕ)) (w' : World) → GetAnswer sys dir new udid a w' → SameRecord a w'
      same (code, buf) w' (r', inl h) =
          let e1 : buf ≡ some text = h.0 ∙ found in
          let e0 : code ≡ pos 0 =
            h.1 ∙ ap (λ b. elim b as (λ _. ℤ) [ none ↦ not_found | some x ↦ pos 0 ]) e1 in
          (text, rw (e0, e1) refl, lawful.from_memory-to_xml p text xml ∙ sym parse)
      same a w' (r', inr h) = absurd (h.1.1 (free h.1.0))

  -- Where no call on the file system is refused: if config_set_device_record answers 0, a following
  -- config_get_device_record answers 0 and gives a text of the same property list.
  pub config_get_device_record-config_set_device_record :
      (store : List ℕ → Option (List ℕ)) (w : World)
      → Refines dir store w
      → Ensures
          (λ r w'. r ≡ pos 0 → Ensures SameRecord (config_get_device_record sys udid w'))
          (config_set_device_record sys (some udid) (some record_data) w)
  config_get_device_record-config_set_device_record store w r =
      Ensures-mono (SaveAnswer sys dir store udid record_data) _
        (config_set_device_record sys (some udid) (some record_data) w)
        (config_set_device_record-Refines sys dir store udid record_data w r)
        (λ code w' answer zero. saved code answer.0 w' answer.1 answer.2 zero)
    where
      saved :
          (code : ℤ) (store' : List ℕ → Option (List ℕ)) (w' : World)
          → Saved sys store udid record_data code store'
          → Refines dir store' w'
          → code ≡ pos 0
          → Ensures SameRecord (config_get_device_record sys udid w')
      saved _ _ w' (written fs text valid parse xml) r' z =
          read_back text (dict fs) store w' parse xml r'
      saved _ _ w' refused r' z = cc
      saved _ _ w' unwritten r' z = cc
      saved _ _ w' lost r' z = cc
