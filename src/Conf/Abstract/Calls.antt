-- ===== src/Conf/Abstract/Calls.antt =====
-- What the calls of Conf/Files.antt do to the store by names.
use usbmuxd.Prelude.{
  Bool, List, Option, false, inl, inr, none, refl, some, suc, true, ℕ, ◌≡◌, ◌≢◌, ◌⊎◌,
}
use usbmuxd.Plist.{Plist}
use usbmuxd.World.{Ensures, Node, Sys, World, file}
use usbmuxd.Conf.Path.{entry_path}
use usbmuxd.Conf.Files.{
  no_entry, plist_write_to_file, read_file, remove, removed, store_text, unless,
}
use usbmuxd.Conf.Abstract.{Refines, at_name, called-Refines, change-Refines}

module _ (dir : List ℕ) (store : List ℕ → Option (List ℕ)) (id : List ℕ) where
  module _ (sys : Sys) where
    -- The error numbers of `remove`.
    abbrev pub IsError : ℕ → Type 0
    IsError n = (n ≡ no_entry) ⊎ ((m : ℕ) × (sys.refused m ≡ some n))

    -- A file was removed, or is as it was.
    abbrev pub Removed : Option ℕ → World → Type 0
    Removed e w =
        ((e ≡ none) × Refines dir (at_name store id none) w)
        ⊎ (((n : ℕ) × (e ≡ some n) × IsError n) × Refines dir store w)

    removed-Removed :
        (node : Option Node) (e : Option ℕ) (k : ℕ) (w : World)
        → sys.refused k ≡ e
        → Refines dir store w
        → Ensures Removed (removed (entry_path dir id) node e w)
    removed-Removed none e k w at r = inr ((no_entry, refl, inl refl), r)
    removed-Removed (some n) (some e) k w at r = inr ((e, refl, inr (k, at)), r)
    removed-Removed (some n) none k w at r = inl (refl, change-Refines dir store w id none r)

    pub remove-Removed :
        (w : World) → Refines dir store w → Ensures Removed (remove sys (entry_path dir id) w)
    unfolding remove
    remove-Removed w r =
        removed-Removed (w.disk (entry_path dir id)) (sys.refused w.calls) w.calls
          (record w { calls = suc w.calls }) refl (called-Refines _ r)

    -- A property list was written, or the file is as it was.
    abbrev pub Written : Plist → Bool → World → Type 0
    Written p ok w =
        ((ok ≡ true)
          × (text : List ℕ) × (sys.to_xml p ≡ some text)
          × Refines dir (at_name store id (some text)) w)
        ⊎ ((ok ≡ false) × Refines dir store w)

    stored-Written :
        (p : Plist) (free : Bool) (text : Option (List ℕ)) (w : World)
        → sys.to_xml p ≡ text
        → Refines dir store w
        → Ensures (Written p) (store_text sys (entry_path dir id) free text w)
    stored-Written p true (some text) w e r =
        inl (refl, text, e, change-Refines dir store w id (some (file text)) r)
    stored-Written p true none w e r = inr (refl, r)
    stored-Written p false text w e r = inr (refl, r)

    pub plist_write_to_file-Written :
        (p : Plist) (w : World)
        → Refines dir store w
        → Ensures (Written p) (plist_write_to_file sys p (entry_path dir id) w)
    unfolding plist_write_to_file
    plist_write_to_file-Written p w r =
        stored-Written p _ (sys.to_xml p) (record w { calls = suc w.calls }) refl
          (called-Refines _ r)

    -- A file was read, or the call was refused.
    abbrev pub Read : Option (List ℕ) → World → Type 0
    Read b w =
        Refines dir store w × ((b ≡ store id) ⊎ ((b ≡ none) × ((n : ℕ) × (sys.refused n ≢ none))))

    unless-Read :
        (n : ℕ) (e : Option ℕ) (b : Option (List ℕ))
        → sys.refused n ≡ e
        → b ≡ store id
        → (unless e b ≡ store id) ⊎ ((unless e b ≡ none) × ((m : ℕ) × (sys.refused m ≢ none)))
    unless-Read n none b at h = inl h
    unless-Read n (some x) b at h = inr (refl, (n, λ c. cc))

    pub read_file-Read :
        (w : World) → Refines dir store w → Ensures Read (read_file sys (entry_path dir id) w)
    unfolding read_file
    read_file-Read w r =
        (called-Refines _ r, unless-Read w.calls (sys.refused w.calls) _ refl (r.files id))
