-- ===== src/Tests/Configuration.antt =====
-- The theorems on src/conf.c at concrete inputs: a disk with one directory, and property lists with
-- one entry that is a text.
use usbmuxd.Prelude.{
  List, Option, [], drop, drop-length_append, eq_bytes, length, none, pos, refl, some, take,
  take-length_append, ℕ, ◌++◌, ◌∷◌, ◌≡◌, ◌≢◌,
}
use usbmuxd.Plist.{Plist, array, boolean, bytes, codes, dict, field, stop, string, uint}
use usbmuxd.World.{Ensures, PlistFiles, Sys, World, directory, put}
use usbmuxd.Conf.Path.{dirname, entry_path}
use usbmuxd.Conf.Files.{contents}
use usbmuxd.Conf.Dir.{config_create_config_dir, mkdir_with_parents}
use usbmuxd.Conf.Dir.Created.{Done, config_create_config_dir-Done}
use usbmuxd.Conf.Dir.Missing.{mkdir_with_parents-missing}
use usbmuxd.Conf.Abstract.{Refines}
use usbmuxd.Conf.Records.{
  config_get_device_record, config_remove_device_record, config_set_device_record,
}
use usbmuxd.Conf.Records.Reading.{
  GetAnswer, RemoveAnswer, config_get_device_record-Refines, config_remove_device_record-Refines,
}
use usbmuxd.Conf.Records.Refinement.{SaveAnswer, config_set_device_record-Refines}
use usbmuxd.Conf.Records.RoundTrip.{SameRecord, config_get_device_record-config_set_device_record}
use usbmuxd.Conf.Buid.{config_get_system_buid, config_set_system_buid}
use usbmuxd.Conf.Buid.Stable.{NoOther, config_get_system_buid-config_set_system_buid}
use usbmuxd.Conf.Uuid.{config_generate_system_buid}
use usbmuxd.Conf.Uuid.Shape.{IsUuid, config_generate_system_buid-IsUuid}
use usbmuxd.Tests.Fixture.{benign, start}

abbrev print : Plist → Option (List ℕ)
print (dict (field k (string s) stop)) = some (length k ∷ (k ++ s))
print _ = none

abbrev parse : List ℕ → Option Plist
parse [] = none
parse (n ∷ xs) = some (dict (field (take n xs) (string (drop n xs)) stop))

abbrev pub files : Sys
files = record benign { to_xml = print; from_memory = parse }

parse-print : (p : Plist) (b : List ℕ) → print p ≡ some b → parse b ≡ some p
parse-print (dict (field k (string s) stop)) b e =
    let text : b ≡ length k ∷ (k ++ s) = cc in
    rw (text, take-length_append k s, drop-length_append k s) refl
parse-print (dict (field k (string s) (field l v fs))) b e = absurd cc
parse-print (dict (field k (boolean s) fs)) b e = absurd cc
parse-print (dict (field k (uint s) fs)) b e = absurd cc
parse-print (dict (field k (bytes s) fs)) b e = absurd cc
parse-print (dict (field k (array s) fs)) b e = absurd cc
parse-print (dict (field k (dict s) fs)) b e = absurd cc
parse-print (dict stop) b e = absurd cc
parse-print (boolean s) b e = absurd cc
parse-print (uint s) b e = absurd cc
parse-print (string s) b e = absurd cc
parse-print (bytes s) b e = absurd cc
parse-print (array s) b e = absurd cc

files-PlistFiles : PlistFiles files
files-PlistFiles = record { from_memory-to_xml = parse-print; buffer_of-to_xml = λ p b e. refl }

-- "/c", with "/", "." and "/c" as directories.
abbrev pub conf_path : List ℕ
conf_path = codes "/c"

abbrev pub disk : World
disk = record start {
  config_dir = some conf_path;
  disk =
      put (put (put (λ p. none) (codes "/") (some directory)) (codes ".") (some directory))
        conf_path (some directory);
}

abbrev pub on_disk : List ℕ → Option (List ℕ)
on_disk id = contents (disk.disk (entry_path conf_path id))

pub disk-Refines : Refines conf_path on_disk disk
unfolding eq_bytes
disk-Refines = record { in_dir = refl; root = refl; here = refl; files = λ id. refl }

abbrev udid : List ℕ
udid = codes "AB-1"

abbrev pairing : List ℕ
pairing = 6 ∷ codes "HostID12345"

config_set_device_record-Refines_example :
    Ensures
      (SaveAnswer files conf_path on_disk udid pairing)
      (config_set_device_record files (some udid) (some pairing) disk)
config_set_device_record-Refines_example =
    config_set_device_record-Refines files conf_path on_disk udid pairing disk disk-Refines

config_get_device_record-Refines_example :
    Ensures (GetAnswer files conf_path on_disk udid) (config_get_device_record files udid disk)
config_get_device_record-Refines_example =
    config_get_device_record-Refines files conf_path on_disk udid disk disk-Refines

config_remove_device_record-Refines_example :
    Ensures
      (RemoveAnswer files conf_path on_disk udid)
      (config_remove_device_record files udid disk)
config_remove_device_record-Refines_example =
    config_remove_device_record-Refines files conf_path on_disk udid disk disk-Refines

config_get_device_record-config_set_device_record_example :
    Ensures
      (λ r w'.
        r ≡ pos 0
        → Ensures
            (SameRecord files files-PlistFiles (λ n. refl) conf_path udid pairing)
            (config_get_device_record files udid w'))
      (config_set_device_record files (some udid) (some pairing) disk)
config_get_device_record-config_set_device_record_example =
    config_get_device_record-config_set_device_record files files-PlistFiles (λ n. refl) conf_path
      udid pairing on_disk disk disk-Refines

no_file : NoOther files files-PlistFiles (λ n. refl) conf_path on_disk
unfolding eq_bytes entry_path
no_file p e = absurd (nothing p e)
  where
    nothing : (p : Plist) → none ≢ some p
    nothing p e = cc

config_get_system_buid-config_set_system_buid_example :
    Ensures
      (λ res w'. res ≡ pos 1 → Ensures (λ s w''. s ≡ codes "B-7") (config_get_system_buid files w'))
      (config_set_system_buid files (codes "B-7") disk)
config_get_system_buid-config_set_system_buid_example =
    config_get_system_buid-config_set_system_buid files files-PlistFiles (λ n. refl) conf_path
      (codes "B-7") on_disk disk no_file disk-Refines

config_generate_system_buid-IsUuid_example :
    Ensures (λ s w'. IsUuid s) (config_generate_system_buid files disk)
config_generate_system_buid-IsUuid_example = config_generate_system_buid-IsUuid files disk

config_create_config_dir-Done_example :
    Ensures (Done conf_path on_disk) (config_create_config_dir files disk)
config_create_config_dir-Done_example =
    config_create_config_dir-Done conf_path on_disk files disk disk-Refines

mkdir_with_parents-missing_example :
    Ensures
      (λ r w'.
        (r ≡ pos 0)
        × (w'.disk (dirname (codes "/c/a/b")) ≡ some directory)
        × (w'.disk (codes "/c/a/b") ≡ none))
      (mkdir_with_parents files 5 (codes "/c/a/b") disk)
unfolding eq_bytes dirname
mkdir_with_parents-missing_example =
    mkdir_with_parents-missing files (λ n. refl) 3 (codes "/c/a/b") disk refl refl refl
