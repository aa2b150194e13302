-- ===== src/Conf/Files.antt =====
-- The calls on the file system that src/conf.c makes: stat, mkdir, remove, and the reading and
-- writing of a whole file through libplist and libimobiledevice-glue.
use usbmuxd.Prelude.{Bool, List, Option, false, none, some, true, ℕ}
use usbmuxd.Plist.{Plist}
use usbmuxd.World.{M, Node, Sys, call, directory, file, pure, put, ret, ◌>>=◌, ◌>>◌}
use usbmuxd.Conf.Path.{dirname}

-- `ENOENT`, `EEXIST`, `EISDIR` of <errno.h>.
abbrev pub no_entry : ℕ
no_entry = 2

abbrev pub exists : ℕ
exists = 17

abbrev pub is_directory : Option Node → Bool
is_directory (some directory) = true
is_directory _ = false

abbrev pub contents : Option Node → Option (List ℕ)
contents (some (file b)) = some b
contents _ = none

abbrev pub change : List ℕ → Option Node → M (Unit {0})
change path v w = ret tt (record w { disk = put w.disk path v })

-- What a call gives that is not refused.
abbrev pub unless : {A : Type 0} → Option ℕ → Option A → Option A
unless none a = a
unless (some _) a = none

-- `mkdir` and `remove`, by what stands at the path, whether its parent is a directory, and the
-- reason to refuse.
abbrev pub made : List ℕ → Option Node → Bool → Option ℕ → M (Option ℕ)
made path (some _) parent e = pure (some exists)
made path none false e = pure (some no_entry)
made path none true (some n) = pure (some n)
made path none true none = change path (some directory) >> pure none

abbrev pub removed : List ℕ → Option Node → Option ℕ → M (Option ℕ)
removed path none e = pure (some no_entry)
removed path (some _) (some n) = pure (some n)
removed path (some _) none = change path none >> pure none

module _ (sys : Sys) where
  -- `none`, or the error number of a call that does not fail by its path.
  abbrev pub barred : M (Option ℕ)
  barred = do n ← call; pure (sys.refused n)

  -- `stat`: what stands there, `none` on an error.
  unfoldable pub stat : List ℕ → M (Option Node)
  stat path w = (do e ← barred; pure (unless e (w.disk path))) w

  -- `mkdir`: `none` on success, the error number otherwise.
  unfoldable pub mkdir : List ℕ → M (Option ℕ)
  unfolding dirname
  mkdir path w = (do e ← barred; made path (w.disk path) (is_directory (w.disk (dirname path))) e) w

  -- `remove`.
  unfoldable pub remove : List ℕ → M (Option ℕ)
  remove path w = (do e ← barred; removed path (w.disk path) e) w

  -- The bytes of a regular file that can be opened.
  unfoldable pub read_file : List ℕ → M (Option (List ℕ))
  read_file path w = (do e ← barred; pure (unless e (contents (w.disk path)))) w

  abbrev pub parsed : Option (List ℕ) → Option Plist
  parsed none = none
  parsed (some b) = sys.from_memory b

  -- `plist_read_from_file`.
  unfoldable pub plist_read_from_file : List ℕ → M (Option Plist)
  unfolding read_file
  plist_read_from_file path = do text ← read_file path; pure (parsed text)

  abbrev pub store_text : List ℕ → Bool → Option (List ℕ) → M Bool
  store_text path true (some b) = change path (some (file b)) >> pure true
  store_text path _ _ = pure false

  abbrev pub writable : Option Node → Bool → Option ℕ → Bool
  writable (some directory) parent e = false
  writable _ false e = false
  writable _ true none = true
  writable _ true (some n) = false

  -- `plist_write_to_file(p, path, PLIST_FORMAT_XML, 0) == PLIST_ERR_SUCCESS`.
  unfoldable pub plist_write_to_file : Plist → List ℕ → M Bool
  unfolding dirname
  plist_write_to_file p path w =
      (do
        e ← barred
        store_text path (writable (w.disk path) (is_directory (w.disk (dirname path))) e)
            (sys.to_xml p))
        w

  abbrev pub buffered : Option (List ℕ) → Option (List ℕ)
  buffered none = none
  buffered (some b) = sys.buffer_of b

  -- `buffer_read_from_filename`.
  unfoldable pub buffer_read_from_filename : List ℕ → M (Option (List ℕ))
  unfolding read_file
  buffer_read_from_filename path = do b ← read_file path; pure (buffered b)
