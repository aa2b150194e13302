-- ===== src/Conf/Abstract.antt =====
-- What src/conf.c promises, without paths and directories: texts by name. `Refines` relates such a
-- store to the file system; the calls of Conf/Files.antt keep to it.
pub mod Calls
use usbmuxd.Prelude.{
  Bool-cases, List, Option, [], ap, eq_bytes, if◌then◌else◌, inl, inr, none, refl, some, sym, ℕ,
  ◌++◌, ◌∙◌, ◌∷◌, ◌≡◌, ◌≢◌,
}
use usbmuxd.Plist.{codes}
use usbmuxd.World.{Node, World, directory, put}
use usbmuxd.Conf.Path.{dir_sep, dot, entry_path, trim}
use usbmuxd.Conf.Path.Distinct.{
  entry_path_inj, entry_path_long, eq_bytes_ne, eq_bytes_self, eq_bytes→≡, ne_of_eq_bytes,
}
use usbmuxd.Conf.Files.{contents}

-- A store, changed at one name.
abbrev pub at_name :
    (List ℕ → Option (List ℕ)) → List ℕ → Option (List ℕ) → List ℕ → Option (List ℕ)
at_name store id v q = if eq_bytes id q then v else store q

-- The directory in use.
abbrev pub dir_of : Option (List ℕ) → List ℕ
dir_of none = trim (codes "/var/lib" ++ (dir_sep ∷ codes "lockdown"))
dir_of (some d) = d

pub record Refines (dir : List ℕ) (store : List ℕ → Option (List ℕ)) (w : World) : Type 0 where
  pub in_dir : dir_of w.config_dir ≡ dir
  pub root : w.disk (dir_sep ∷ []) ≡ some directory
  pub here : w.disk (dot ∷ []) ≡ some directory
  pub files : (id : List ℕ) → contents (w.disk (entry_path dir id)) ≡ store id

module _ {dir : List ℕ} {store : List ℕ → Option (List ℕ)} {w : World} where
  pub called-Refines : (n : ℕ) → Refines dir store w → Refines dir store (record w { calls = n })
  called-Refines n r = record { in_dir = r.in_dir; root = r.root; here = r.here; files = r.files }

  pub dir_set-Refines :
      (d : List ℕ)
      → d ≡ dir
      → Refines dir store w
      → Refines dir store (record w { config_dir = some d })
  dir_set-Refines d e r = record { in_dir = e; root = r.root; here = r.here; files = r.files }

put_ne : (f : List ℕ → Option Node) (p q : List ℕ) (v : Option Node) → p ≢ q → put f p v q ≡ f q
put_ne f p q v ne = rw (eq_bytes_ne p q ne) refl

put_self : (f : List ℕ → Option Node) (p : List ℕ) (v : Option Node) → put f p v p ≡ v
put_self f p v = rw (eq_bytes_self p) refl

put-contents :
    (f : List ℕ → Option Node) (dir id q : List ℕ) (v : Option Node)
    → contents (put f (entry_path dir id) v (entry_path dir q))
      ≡ at_name (λ n. contents (f (entry_path dir n))) id (contents v) q
put-contents f dir id q v = elim (Bool-cases (eq_bytes id q)) [
  | inl e ↦ rw⁻¹ (eq_bytes→≡ id q e) (rw (put_self f (entry_path dir id) v, eq_bytes_self id) refl)
  | inr e ↦
      rw
        (
          put_ne f (entry_path dir id) (entry_path dir q) v
              (λ s. ne_of_eq_bytes id q e (entry_path_inj dir id q s)),
          e,
        )
        refl
]

module _ (dir : List ℕ) (store : List ℕ → Option (List ℕ)) (w : World) where
  -- A file of the directory is written or removed.
  pub change-Refines :
      (id : List ℕ) (v : Option Node)
      → Refines dir store w
      → Refines dir
          (at_name store id (contents v))
          (record w { disk = put w.disk (entry_path dir id) v })
  change-Refines id v r = record {
    in_dir = r.in_dir;
    root =
        put_ne w.disk (entry_path dir id) (dir_sep ∷ []) v
          (λ e. entry_path_long dir id dir_sep (sym e))
        ∙ r.root;
    here =
        put_ne w.disk (entry_path dir id) (dot ∷ []) v (λ e. entry_path_long dir id dot (sym e))
        ∙ r.here;
    files = λ q.
        put-contents w.disk dir id q v
        ∙ ap (λ c. if eq_bytes id q then contents v else c) (r.files q);
  }

pub Refines-cong :
    (dir : List ℕ) (s t : List ℕ → Option (List ℕ)) (w : World)
    → ((q : List ℕ) → s q ≡ t q)
    → Refines dir s w
    → Refines dir t w
Refines-cong dir s t w same r = record {
  in_dir = r.in_dir;
  root = r.root;
  here = r.here;
  files = λ q. r.files q ∙ same q;
}

-- The last change of a name counts.
pub at_name-at_name :
    (store : List ℕ → Option (List ℕ)) (id : List ℕ) (u v : Option (List ℕ)) (q : List ℕ)
    → at_name (at_name store id u) id v q ≡ at_name store id v q
at_name-at_name store id u v q = elim (Bool-cases (eq_bytes id q)) [
  | inl e ↦ rw e refl
  | inr e ↦ rw e refl
]
