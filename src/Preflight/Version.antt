-- ===== src/Preflight/Version.antt =====
-- The gate of preflight_worker_handle_device_add in src/preflight.c: which devices ask for trust by
-- themselves, by their class and the major number of their version.
use usbmuxd.Prelude.{
  Bool, List, [], eq_bytes, false, if◌then◌else◌, leb, m32, min, negsuc, pos, sub32, to_int, ℕ, ℤ,
  ◌%◌, ◌&&◌, ◌*◌, ◌+◌, ◌-◌, ◌==◌, ◌||◌, ◌∷◌,
}
use usbmuxd.Plist.{codes}

-- `isspace` in the C locale.
abbrev is_space : ℕ → Bool
is_space c = c == 32 || (leb 9 c && leb c 13)

abbrev pub is_digit : ℕ → Bool
is_digit c = leb 48 c && leb c 57

-- The number that the digits at the front make, behind those that are read.
unfoldable pub digits_from : ℕ → List ℕ → ℕ
digits_from n [] = n
digits_from n (c ∷ cs) =
    let rest = digits_from (n * 10 + (c - 48)) cs in if is_digit c then rest else n

-- `LONG_MAX`, where `strtol` stops.
abbrev pub long_max : ℕ
long_max = 9223372036854775807

-- Behind the spaces: a sign and digits. The result as a `long` is converted to `int`.
unfoldable pub signed_number : List ℕ → ℤ
unfolding digits_from
signed_number [] = pos 0
signed_number (c ∷ cs) =
    if c == 45
    then to_int (sub32 0 (min (digits_from 0 cs) (long_max + 1)))
    else if c == 43
    then to_int (min (digits_from 0 cs) long_max % m32)
    else to_int (min (digits_from 0 (c ∷ cs)) long_max % m32)

-- `(int)strtol(s, NULL, 10)`
unfoldable pub strtol : List ℕ → ℤ
unfolding signed_number
strtol [] = pos 0
strtol (c ∷ cs) = let rest = strtol cs in if is_space c then rest else signed_number (c ∷ cs)

abbrev at_least : ℕ → ℤ → Bool
at_least n (pos m) = leb n m
at_least n (negsuc m) = false

-- iOS 7, watchOS 2, tvOS 9 and later.
unfoldable pub shows_trust_dialog : List ℕ → ℤ → Bool
unfolding eq_bytes
shows_trust_dialog deviceclass version_major =
    ((eq_bytes deviceclass (codes "iPhone") || eq_bytes deviceclass (codes "iPad"))
      && at_least 7 version_major)
    || (eq_bytes deviceclass (codes "Watch") && at_least 2 version_major)
    || (eq_bytes deviceclass (codes "AppleTV") && at_least 9 version_major)
