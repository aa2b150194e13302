-- ===== src/Prelude/Words.antt =====
-- Machine words as native numbers: wrap-around, single bits of a mask, and byte order.
use Prim.Native.Nat.{ℕ, ◌+◌, ◌-◌, ◌*◌, ◌/◌, ◌%◌, ◌<◌, ◌≤◌}
use mathlib.Core.Path.{◌≡◌}
use mathlib.Core.Bool.{Bool}
use mathlib.Core.List.{List, [], ◌∷◌}
use native.Mathlib.Omega.{arith}
use usbmuxd.Prelude.Tests.{if◌then◌else◌, ◌==◌}

abbrev pub m8 : ℕ
m8 = 256

abbrev pub m16 : ℕ
m16 = 65536

abbrev pub m32 : ℕ
m32 = 4294967296

abbrev pub m64 : ℕ
m64 = 18446744073709551616

-- `uint16_t`, `uint32_t` addition, and subtraction, which wraps.
abbrev pub add16 : ℕ → ℕ → ℕ
add16 a b = (a + b) % m16

abbrev pub add32 : ℕ → ℕ → ℕ
add32 a b = (a + b) % m32

abbrev pub sub32 : ℕ → ℕ → ℕ
sub32 a b = (a + m32 - b % m32) % m32

abbrev pub sub64 : ℕ → ℕ → ℕ
sub64 a b = (a + m64 - b % m64) % m64

-- `e & m`, `e |= m`, `e &= ~m` for a mask of one bit.
abbrev pub has_bit : ℕ → ℕ → Bool
has_bit m e = e / m % 2 == 1

abbrev pub set_bit : ℕ → ℕ → ℕ
set_bit m e = if has_bit m e then e else e + m

abbrev pub clear_bit : ℕ → ℕ → ℕ
clear_bit m e = if has_bit m e then e - m else e

-- `htons`, `htonl`: network byte order.
abbrev pub be16 : ℕ → List ℕ
be16 x = (x / 256 % 256) ∷ (x % 256) ∷ []

abbrev pub be32 : ℕ → List ℕ
be32 x = (x / 16777216 % 256) ∷ (x / 65536 % 256) ∷ (x / 256 % 256) ∷ (x % 256) ∷ []

abbrev pub le16 : ℕ → List ℕ
le16 x = (x % 256) ∷ (x / 256 % 256) ∷ []

-- A `uint32_t` stored in the order of a little-endian host.
abbrev pub le32 : ℕ → List ℕ
le32 x = (x % 256) ∷ (x / 256 % 256) ∷ (x / 65536 % 256) ∷ (x / 16777216 % 256) ∷ []

-- `ntohs`, `ntohl`, and a `uint32_t` read on that host.
abbrev pub of_be16 : ℕ → ℕ → ℕ
of_be16 a b = a * 256 + b

abbrev pub of_be32 : ℕ → ℕ → ℕ → ℕ → ℕ
of_be32 a b c d = ((a * 256 + b) * 256 + c) * 256 + d

abbrev pub of_le32 : ℕ → ℕ → ℕ → ℕ → ℕ
of_le32 a b c d = of_be32 d c b a

pub of_be16-be16 : (x : ℕ) → x < m16 → of_be16 (x / 256 % 256) (x % 256) ≡ x
of_be16-be16 x h = omega arith

pub of_be32-be32 :
    (x : ℕ) → x < m32 → of_be32 (x / 16777216 % 256) (x / 65536 % 256) (x / 256 % 256) (x % 256) ≡ x
of_be32-be32 x h = omega arith

-- A reading of the clock that is not behind the last one.
pub sub64_ahead : (t last : ℕ) → last ≤ t → t < m64 → sub64 t last ≡ t - last
sub64_ahead t last h small = omega arith
