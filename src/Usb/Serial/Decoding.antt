-- ===== src/Usb/Serial/Decoding.antt =====
-- get_serial_callback of src/usb.c decodes what a device encodes.
use usbmuxd.Prelude.{
  List, [], ap, arith, drop, get_or, length, le→ltb, refl, suc, sym, zero, ℕ, ◌+◌, ◌<◌, ◌∙◌, ◌∷◌,
  ◌≡◌, ◌≤◌,
}
use usbmuxd.Usb.Serial.{decode_from, decode_serial, serial_size}

-- The code units of a text, little-endian, and the string descriptor of USB: its length in bytes,
-- its type 3, the code units.
abbrev code_units : List ℕ → List ℕ
code_units [] = []
code_units (c ∷ cs) = c ∷ 0 ∷ code_units cs

abbrev pub string_descriptor : List ℕ → List ℕ
string_descriptor s = (2 + (length s + length s)) ∷ 3 ∷ code_units s

abbrev pub byte_of : List ℕ → ℕ → ℕ
byte_of bs i = get_or bs i 0

-- Characters of a serial number: ASCII, and not NUL.
abbrev pub IsText : List ℕ → Type 0
IsText s = (i : ℕ) → i < length s → (0 < get_or s i 0) × (get_or s i 0 < 128)

get_or-code_units :
    (s : List ℕ) (i : ℕ)
    → (get_or (code_units s) (i + i) 0 ≡ get_or s i 0) × (get_or (code_units s) (suc (i + i)) 0 ≡ 0)
get_or-code_units [] i = (refl, refl)
get_or-code_units (c ∷ cs) zero = (refl, refl)
get_or-code_units (c ∷ cs) (suc i) =
    let twice : suc i + suc i ≡ suc (suc (i + i)) = omega arith in rw twice (get_or-code_units cs i)

get_or-drop : (s : List ℕ) (k : ℕ) → get_or s k 0 ≡ get_or (drop k s) 0 0
get_or-drop s zero = refl
get_or-drop [] (suc k) = refl
get_or-drop (x ∷ xs) (suc k) = get_or-drop xs k

drop-suc : (s : List ℕ) (k x : ℕ) (xs : List ℕ) → x ∷ xs ≡ drop k s → xs ≡ drop (suc k) s
drop-suc s zero x xs e = ap (drop 1) e
drop-suc [] (suc k) x xs e = ap (drop 1) e
drop-suc (y ∷ ys) (suc k) x xs e = drop-suc ys k x xs e

-- The two bytes of the k-th code unit.
unit_at :
    (s : List ℕ) (k si : ℕ)
    → si ≡ 2 + (k + k)
    → (byte_of (string_descriptor s) si ≡ get_or s k 0)
      × (byte_of (string_descriptor s) (si + 1) ≡ 0)
unit_at s k si e =
    let low : si ≡ suc (suc (k + k)) = omega arith in
    let high : si + 1 ≡ suc (suc (suc (k + k))) = omega arith in
    (rw low (get_or-code_units s k).0, rw high (get_or-code_units s k).1)

-- A character, and the end.
decode_char :
    (bytes : ℕ → ℕ) (left si : ℕ)
    → si < bytes 0
    → 0 < bytes si
    → bytes si < 128
    → bytes (si + 1) ≡ 0
    → decode_from bytes (suc left) si ≡ bytes si ∷ decode_from bytes left (si + 2)
unfolding decode_from
decode_char bytes left si a b c d = ground arith

decode_end : (bytes : ℕ → ℕ) (left si : ℕ) → bytes 0 ≤ si → decode_from bytes left si ≡ []
unfolding decode_from
decode_end bytes zero si h = refl
decode_end bytes (suc left) si h = rw (le→ltb si (bytes 0) h) refl

decode_from-descriptor :
    (s : List ℕ) (left k si : ℕ) (rest : List ℕ)
    → IsText s
    → si ≡ 2 + (k + k)
    → rest ≡ drop k s
    → length s ≡ k + length rest
    → length rest ≤ left
    → decode_from (byte_of (string_descriptor s)) left si ≡ rest
decode_from-descriptor s left k si [] t at e n h =
    decode_end (byte_of (string_descriptor s)) left si (omega arith)
decode_from-descriptor s zero k si (x ∷ xs) t at e n h = absurd (omega arith)
decode_from-descriptor s (suc left) k si (x ∷ xs) t at e n h =
    decode_char bytes left si (omega arith) (omega (arith, (t k short).0, unit))
      (omega (arith, (t k short).1, unit)) (unit_at s k si at).1
    ∙ cons unit x_at (
        decode_from-descriptor s left (suc k) (si + 2) xs t (omega arith) (drop-suc s k x xs e)
          (omega arith) (omega arith))
  where
    bytes : ℕ → ℕ
    bytes = byte_of (string_descriptor s)

    short : k < length s
    short = omega arith

    unit : bytes si ≡ get_or s k 0
    unit = (unit_at s k si at).0

    x_at : get_or s k 0 ≡ x
    x_at = get_or-drop s k ∙ ap (λ l. get_or l 0 0) (sym e)

    cons : {a b : ℕ} {l m : List ℕ} → bytes si ≡ a → a ≡ b → l ≡ m → (bytes si ∷ l) ≡ b ∷ m
    cons p q r = cc

-- The string descriptor of a text of at most 126 ASCII characters without NUL, which is as much as
-- fits in one, is decoded to the text.
pub decode_serial-string_descriptor :
    (s : List ℕ) → IsText s → length s ≤ 126 → decode_serial (byte_of (string_descriptor s)) ≡ s
unfolding decode_serial
decode_serial-string_descriptor s t h =
    decode_from-descriptor s serial_size 0 2 s t refl refl (omega arith) (omega arith)
