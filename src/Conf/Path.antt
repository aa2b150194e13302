-- ===== src/Conf/Path.antt =====
-- Paths as text, for src/conf.c: the entries of the file system are told apart by their spelling.
-- `dirname` of <libgen.h> works on the reversed text.
pub mod Distinct
use usbmuxd.Prelude.{List, [], if◌then◌else◌, ℕ, ◌++◌, ◌==◌, ◌∷◌}
use usbmuxd.Plist.{codes}

-- '/' and '.'.
abbrev pub dir_sep : ℕ
dir_sep = 47

abbrev pub dot : ℕ
dot = 46

unfoldable pub reverse_onto : List ℕ → List ℕ → List ℕ
reverse_onto [] acc = acc
reverse_onto (x ∷ xs) acc = reverse_onto xs (x ∷ acc)

-- The text from its last byte on, without the separators or the name at its end.
unfoldable pub skip_seps : List ℕ → List ℕ
skip_seps [] = []
skip_seps (x ∷ xs) = if x == dir_sep then skip_seps xs else x ∷ xs

unfoldable pub skip_name : List ℕ → List ℕ
skip_name [] = []
skip_name (x ∷ xs) = if x == dir_sep then x ∷ xs else skip_name xs

abbrev pub root_or_text : List ℕ → List ℕ
root_or_text [] = dir_sep ∷ []
root_or_text (x ∷ xs) = reverse_onto (x ∷ xs) []

abbrev pub parent_of : List ℕ → List ℕ
parent_of [] = dot ∷ []
parent_of (sep ∷ xs) = root_or_text (skip_seps xs)

abbrev pub parent_in : List ℕ → List ℕ → List ℕ
parent_in [] [] = dot ∷ []
parent_in (x ∷ xs) [] = dir_sep ∷ []
parent_in whole (y ∷ ys) = parent_of (skip_name ys)

unfoldable pub dirname : List ℕ → List ℕ
unfolding reverse_onto skip_seps skip_name
dirname p = let r = reverse_onto p [] in parent_in r (skip_seps r)

-- `string_concat(config_path, "/", name, ".plist", NULL)`.
unfoldable pub entry_path : List ℕ → List ℕ → List ℕ
entry_path dir name = dir ++ (dir_sep ∷ (name ++ codes ".plist"))

-- The trailing separators of a text but for one that is its first byte.
unfoldable pub trim : List ℕ → List ℕ
unfolding reverse_onto skip_seps
trim [] = []
trim (x ∷ xs) = x ∷ reverse_onto (skip_seps (reverse_onto xs [])) []
