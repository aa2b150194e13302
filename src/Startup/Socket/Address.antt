-- ===== src/Startup/Socket/Address.antt =====
-- Addresses with a port, as create_socket of src/main.c takes them apart.
use usbmuxd.Prelude.{
  Bool, Bool-cases, List, [], false, inl, inr, none, refl, some, true, ℕ, ◌++◌, ◌==◌, ◌||◌, ◌∷◌,
  ◌≡◌,
}
use usbmuxd.Startup.Socket.{last_colon}

unfoldable pub any_colon : List ℕ → Bool
any_colon [] = false
any_colon (c ∷ cs) = c == 58 || any_colon cs

no_colon : (port : List ℕ) → any_colon port ≡ false → last_colon port ≡ none
unfolding any_colon last_colon
no_colon [] h = refl
no_colon (c ∷ cs) h = elim (Bool-cases (c == 58)) [
  | inl e ↦ absurd (let same : (c == 58 || any_colon cs) ≡ true = rw e refl in cc)
  | inr e ↦
      rw (no_colon cs (let same : (c == 58 || any_colon cs) ≡ any_colon cs = rw e refl in cc), e)
        refl
]

-- A host, which may hold ':' itself, and a port without one, joined by ':', are taken apart again.
pub last_colon-split :
    (hostname tcp_port : List ℕ)
    → any_colon tcp_port ≡ false
    → last_colon (hostname ++ (58 ∷ tcp_port)) ≡ some (hostname, tcp_port)
unfolding last_colon
last_colon-split [] tcp_port h = rw (no_colon tcp_port h) refl
last_colon-split (c ∷ cs) tcp_port h = rw (last_colon-split cs tcp_port h) refl
