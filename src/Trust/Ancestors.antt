-- ===== src/Trust/Ancestors.antt =====
-- When the ancestors of a path pass.
use Prim.Native.Nat.{bit_and}
use mathlib.Core.List.{reverse, reverse-reverse, reverse-append}
use mihomo_userctl.Base.{
  ℕ, String, ◌≡◌, ◌≢◌, ◌↔◌, ◌⊎◌, refl, inl, true, Option, none, some, List, [], ◌∷◌, arith,
  contains, All, All-append, raise, ok, nat_eq,
}
use mihomo_userctl.Files.{FilePath, Meta, Node, file, symlink, dir, special, Files, lstat, parents}
use mihomo_userctl.Trust.{check_ancestor, check_each, check_ancestors, refused}

-- Only its owner can replace what the directory holds, or the sticky bit of root protects it.
abbrev pub IsUnwritable : Meta → Type 0
IsUnwritable m = (bit_and m.mode 0o022 ≡ 0) ⊎ ((m.uid ≡ 0) × (bit_and m.mode 0o1000 ≢ 0))

-- A directory that is not there yet, or one of a trusted owner that nobody else can write to.
abbrev pub IsSafe : List ℕ → Option Node → Type 0
IsSafe owners none = Unit
IsSafe owners (some (dir m)) = (contains owners m.uid ≡ true) × IsUnwritable m
IsSafe owners (some _) = ⊥

abbrev pub AreSafe : List ℕ → Files → List FilePath → Type 0
AreSafe owners fs = All (λ p. IsSafe owners (lstat fs p))

check_ancestor_ok :
    (owners : List ℕ) (code : String) (n : Option Node)
    → (check_ancestor owners code n ≡ ok tt) ↔ IsSafe owners n
unfolding check_ancestor
check_ancestor_ok owners code none = ground arith
check_ancestor_ok owners code (some (dir m)) = ground arith
check_ancestor_ok owners code (some (file _ _)) = ground arith
check_ancestor_ok owners code (some (symlink _ _)) = ground arith
check_ancestor_ok owners code (some (special _)) = ground arith

check_ancestor_raises :
    (owners : List ℕ) (code : String) (n : Option Node)
    → (check_ancestor owners code n ≡ ok tt) ⊎ (check_ancestor owners code n ≡ raise (refused code))
unfolding check_ancestor
check_ancestor_raises owners code none = inl refl
check_ancestor_raises owners code (some n) = ground arith

check_each_ok :
    (owners : List ℕ) (code : String) (fs : Files) (ps : List FilePath)
    → (check_each owners code fs ps ≡ ok tt) ↔ AreSafe owners fs ps
unfolding check_each
check_each_ok owners code fs [] = ground arith
check_each_ok owners code fs (p ∷ ps) =
    ground (arith, check_ancestor_ok owners code (lstat fs p), check_each_ok owners code fs ps)

check_each_raises :
    (owners : List ℕ) (code : String) (fs : Files) (ps : List FilePath)
    → (check_each owners code fs ps ≡ ok tt) ⊎ (check_each owners code fs ps ≡ raise (refused code))
unfolding check_each
check_each_raises owners code fs [] = inl refl
check_each_raises owners code fs (p ∷ ps) =
    ground
      (arith, check_ancestor_raises owners code (lstat fs p), check_each_raises owners code fs ps)

pub All-reverse {ℓ κ} : {A : Type ℓ} (P : A → Type κ) (xs : List A) → All P xs → All P (reverse xs)
All-reverse P [] h = tt
All-reverse P (x ∷ xs) h =
    rw (reverse-append (x ∷ []) xs)
      (All-append P (reverse xs) (x ∷ []) (All-reverse P xs h.1) (h.0, tt))

AreSafe-reverse :
    (owners : List ℕ) (fs : Files) (ps : List FilePath)
    → AreSafe owners fs (reverse ps)
    → AreSafe owners fs ps
AreSafe-reverse owners fs ps h =
    rw reverse-reverse at (All-reverse (λ p. IsSafe owners (lstat fs p)) (reverse ps) h)

module _ (fs : Files) (path : FilePath) (code : String) (owners : List ℕ) where
  -- The ancestors pass exactly when each is absent, or a directory of one of the owners that
  -- nobody else can write to.
  pub check_ancestors_ok :
      (check_ancestors fs path code owners ≡ ok tt) ↔ AreSafe owners fs (parents path)
  unfolding check_ancestors
  check_ancestors_ok =
      let each = check_each_ok owners code fs (reverse (parents path)) in
      (
        λ h. AreSafe-reverse owners fs (parents path) (each.0 h),
        λ h. each.1 (All-reverse (λ p. IsSafe owners (lstat fs p)) (parents path) h),
      )

  pub check_ancestors_raises :
      (check_ancestors fs path code owners ≡ ok tt)
      ⊎ (check_ancestors fs path code owners ≡ raise (refused code))
  unfolding check_ancestors
  check_ancestors_raises = check_each_raises owners code fs (reverse (parents path))
