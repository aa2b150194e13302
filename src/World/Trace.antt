-- ===== src/World/Trace.antt =====
-- What the trace says of one socket.
use usbmuxd.Prelude.{
  List, [], ap, append_assoc, drop, if◌then◌else◌, take, take-append-drop, ℕ, ◌++◌, ◌==◌, ◌∙◌, ◌∷◌,
  ◌≡◌,
}
use usbmuxd.World.Store.{Out, reply}

-- All bytes that a socket was given, the newest last.
abbrev pub replies : ℕ → List Out → List ℕ
replies fd [] = []
replies fd (reply f bs ∷ os) = if f == fd then replies fd os ++ bs else replies fd os
replies fd (_ ∷ os) = replies fd os

-- Bytes given away and the bytes left are the bytes there were.
pub rejoin_after : (before xs : List ℕ) (n : ℕ) → (before ++ take n xs) ++ drop n xs ≡ before ++ xs
rejoin_after before xs n =
    append_assoc before (take n xs) (drop n xs) ∙ ap (λ ys. before ++ ys) (take-append-drop n xs)
