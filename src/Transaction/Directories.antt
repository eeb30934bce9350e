-- ===== src/Transaction/Directories.antt =====
-- The directories that `publish` creates: they are all made, and `rollback` removes them again.
use mathlib.Core.List.{reverse, reverse-append}
use mihomo_userctl.Base.{
  ℕ, ◌<◌, ◌≡◌, ◌≢◌, refl, sym, ◌∙◌, ap, inl, inr, String, Bool, true, false, Option, none, some,
  List, [], ◌∷◌, ◌++◌, arith, Bool-cases, Option-cases, length, All, All-append, ok,
}
use mihomo_userctl.Base.Dict
use mihomo_userctl.Files
use mihomo_userctl.Files.{
  FilePath, path_eq, Node, file, symlink, dir, special, Files, Os, lstat, parent, parents, is_dir,
  has_child, has_parent, mkdir, exists,
}
use mihomo_userctl.Files.Laws.{
  Same, IsTree, lstat-put_self, lstat-put_ne, lstat-remove_self, lstat-remove_ne, has_child_absent,
  put-IsTree,
}
use mihomo_userctl.Trust.{missing_from, make_dirs}
use mihomo_userctl.Trust.Ancestors.{IsSafe, AreSafe}
use mihomo_userctl.Transaction.Rollback.{remove_dir, remove_dirs}

module _ (os : Os) where
  pub mkdir_inv :
      (fs fs1 : Files) (p : FilePath)
      → mkdir os fs p ≡ some fs1
      → (lstat fs p ≡ none)
        × (has_parent fs p ≡ true)
        × (fs1 ≡ Dict.put fs p (Files.private_dir os))
  unfolding mkdir
  mkdir_inv fs fs1 p h = ground arith

  mkdir_ok :
      (fs : Files) (p : FilePath)
      → lstat fs p ≡ none
      → has_parent fs p ≡ true
      → mkdir os fs p ≡ some (Dict.put fs p (Files.private_dir os))
  unfolding mkdir
  mkdir_ok fs p a h = ground arith

  -- One more directory at the end of the list.
  make_dirs_last_inv :
      (fs fs1 : Files) (ps : List FilePath) (p : FilePath)
      → make_dirs os fs (ps ++ p ∷ []) ≡ (true, fs1)
      → (fs0 : Files) × (make_dirs os fs ps ≡ (true, fs0)) × (mkdir os fs0 p ≡ some fs1)
  unfolding make_dirs
  make_dirs_last_inv fs fs1 [] p h = (fs, refl, ground arith)
  make_dirs_last_inv fs fs1 (d ∷ ps) p h = elim (Option-cases (mkdir os fs d)) [
    | inl e ↦ absurd (cc (rw (e, make_dirs) at h))
    | inr (fs', e) ↦
        let (fs0, a, b) = make_dirs_last_inv fs' fs1 ps p (rw (e, make_dirs) at h) in
        (fs0, rw (e, make_dirs) a, b)
  ]

  make_dirs_last :
      (fs fs0 fs1 : Files) (ps : List FilePath) (p : FilePath)
      → make_dirs os fs ps ≡ (true, fs0)
      → mkdir os fs0 p ≡ some fs1
      → make_dirs os fs (ps ++ p ∷ []) ≡ (true, fs1)
  unfolding make_dirs
  make_dirs_last fs fs0 fs1 [] p h m = ground arith
  make_dirs_last fs fs0 fs1 (d ∷ ps) p h m = elim (Option-cases (mkdir os fs d)) [
    | inl e ↦ absurd (cc (rw (e, make_dirs) at h))
    | inr (fs', e) ↦ rw (e, make_dirs) (make_dirs_last fs' fs0 fs1 ps p (rw (e, make_dirs) at h) m)
  ]

  -- What lies deeper than the directories is not touched.
  make_dirs_deep :
      (fs : Files) (ps : List FilePath) (q : FilePath)
      → All (λ d. length d.parts < length q.parts) ps
      → lstat (make_dirs os fs ps).1 q ≡ lstat fs q
  unfolding make_dirs
  make_dirs_deep fs [] q h = refl
  make_dirs_deep fs (d ∷ ps) q h = elim (Option-cases (mkdir os fs d)) [
    | inl e ↦ rw (e, make_dirs)
    | inr (fs', e) ↦
        rw (e, make_dirs) (make_dirs_deep fs' ps q h.1 ∙ made fs' (mkdir_inv fs fs' d e).2)
  ]
    where
      other : d ≢ q
      other e = absurd (omega (arith, ap (λ (p : FilePath). length p.parts) e, h.0))

      made : (fs' : Files) → fs' ≡ Dict.put fs d (Files.private_dir os) → lstat fs' q ≡ lstat fs q
      made fs' e = rw e (lstat-put_ne fs d q _ other)

  missing_short :
      (fs : Files) (a : Bool) (parts : List String) (q : FilePath)
      → length parts < length q.parts
      → All (λ d. length d.parts < length q.parts) (missing_from os fs a parts)
  unfolding missing_from
  missing_short fs a [] q h = tt
  missing_short fs a (n ∷ parts) q h =
      elim (Bool-cases (exists os fs (record { absolute = a; parts = n ∷ parts }))) [
        | inl e ↦ rw e tt
        | inr e ↦ rw e (h, missing_short fs a parts q (omega arith))
      ]

  All-reverse : (P : FilePath → Type 0) (xs : List FilePath) → All P xs → All P (reverse xs)
  All-reverse P [] h = tt
  All-reverse P (x ∷ xs) h =
      rw (reverse-append (x ∷ []) xs)
        (All-append P (reverse xs) (x ∷ []) (All-reverse P xs h.1) (h.0, tt))

  -- Making the missing ancestors of a path does not touch the path.
  pub make_dirs_beyond :
      (fs : Files) (a : Bool) (parts : List String) (q : FilePath)
      → length parts < length q.parts
      → lstat (make_dirs os fs (reverse (missing_from os fs a parts))).1 q ≡ lstat fs q
  make_dirs_beyond fs a parts q h =
      make_dirs_deep fs _ q (All-reverse _ _ (missing_short fs a parts q h))

  abbrev at_parts : Bool → List String → FilePath
  at_parts a parts = record { absolute = a; parts = parts }

  safe_present :
      (owners : List ℕ) (fs : Files) (p : FilePath)
      → IsSafe owners (lstat fs p)
      → exists os fs p ≡ true
      → is_dir (lstat fs p) ≡ true
  unfolding exists
  safe_present owners fs p s e = by_entry (lstat fs p) s e
    where
      by_entry :
          (n : Option Node)
          → IsSafe owners n
          → Files.followed (os.resolves fs p) n ≡ true
          → is_dir n ≡ true
      by_entry none s e = cc
      by_entry (some (dir m)) s e = refl
      by_entry (some (file _ _)) s e = absurd s
      by_entry (some (symlink _ _)) s e = absurd s
      by_entry (some (special _)) s e = absurd s

  safe_absent :
      (owners : List ℕ) (fs : Files) (p : FilePath)
      → IsSafe owners (lstat fs p)
      → exists os fs p ≡ false
      → lstat fs p ≡ none
  unfolding exists
  safe_absent owners fs p s e = by_entry (lstat fs p) s e
    where
      by_entry :
          (n : Option Node)
          → IsSafe owners n
          → Files.followed (os.resolves fs p) n ≡ false
          → n ≡ none
      by_entry none s e = refl
      by_entry (some (dir m)) s e = cc
      by_entry (some (file _ _)) s e = absurd s
      by_entry (some (symlink _ _)) s e = absurd s
      by_entry (some (special _)) s e = absurd s

  -- Where the path and its ancestors are safe, all that is missing is made.
  pub dirs_made :
      (owners : List ℕ) (fs : Files) (a : Bool) (parts : List String)
      → IsTree fs
      → AreSafe owners fs (at_parts a parts ∷ parents (at_parts a parts))
      → (fs1 : Files) × (make_dirs os fs (reverse (missing_from os fs a parts)) ≡ (true, fs1))
        × (is_dir (lstat fs1 (at_parts a parts)) ≡ true)
  unfolding missing_from make_dirs
  dirs_made owners fs a [] t s = (fs, refl, t.rooted a)
  dirs_made owners fs a (n ∷ parts) t s =
      let p = at_parts a (n ∷ parts) in
      let (fs0, made, up) = dirs_made owners fs a parts t s.1 in
      elim (Bool-cases (exists os fs p)) [
        | inl e ↦ (fs, rw e refl, safe_present owners fs p s.0 e)
        | inr e ↦
            let kept : lstat fs0 p ≡ lstat fs p =
              rw made at (make_dirs_beyond fs a parts p (omega arith)) in
            let fs1 = Dict.put fs0 p (Files.private_dir os) in
            (
              fs1,
              rw (e, reverse-append (p ∷ []) (missing_from os fs a parts))
                  (make_dirs_last fs fs0 fs1 _ p made
                    (mkdir_ok fs0 p (kept ∙ safe_absent owners fs p s.0 e) up)),
              rw lstat-put_self,
            )
      ]

  remove_dir_empty :
      (g : Files) (p : FilePath)
      → lstat g p ≡ some (Files.private_dir os)
      → has_child g p ≡ false
      → remove_dir p g ≡ (ok tt, Dict.remove g p)
  unfolding remove_dir
  remove_dir_empty g p e c = rw (e, remove_dir, c)

  -- `rollback` with these directories leads from `fs1` back to `fs`.
  abbrev pub Undoes : List FilePath → Files → Files → Type 0
  Undoes dirs fs1 fs =
      (g : Files) → Same g fs1 → ((remove_dirs dirs g).0 ≡ ok tt) × Same (remove_dirs dirs g).1 fs

  none_undone : (fs fs1 : Files) → IsTree fs → fs ≡ fs1 → IsTree fs1 × Undoes [] fs1 fs
  unfolding remove_dirs
  none_undone fs fs1 t e = (rw (← e) t, λ g same. (refl, λ p. rw e (same p)))

  module _ (fs0 fs1 : Files) (p : FilePath) (t : IsTree fs0) (h : mkdir os fs0 p ≡ some fs1) where
    mkdir-IsTree : IsTree fs1
    mkdir-IsTree =
        let (_, up, e) = mkdir_inv fs0 fs1 p h in rw e (put-IsTree fs0 p _ t up (λ _. refl))

    mkdir_undone :
        (g : Files)
        → Same g fs1
        → (remove_dir p g ≡ (ok tt, Dict.remove g p)) × Same (Dict.remove g p) fs0
    mkdir_undone g same =
        let (absent, up, e) = mkdir_inv fs0 fs1 p h in
        let here : lstat g p ≡ some (Files.private_dir os) =
          same p ∙ rw e (lstat-put_self fs0 p (Files.private_dir os)) in
        let there : (c : FilePath) → c ≢ p → lstat g c ≡ lstat fs0 c =
          λ c ne. same c ∙ rw e (lstat-put_ne fs0 p c (Files.private_dir os) (λ q. ne (sym q))) in
        (
          remove_dir_empty g p here (has_child_absent fs0 g p t there absent),
          λ c. elim (path_eq.dec p c) [
            | yes q ↦ rw (← q, lstat-remove_self) (sym absent)
            | no ne ↦ lstat-remove_ne g p c ne ∙ there c (λ q. ne (sym q))
          ],
        )

  dir_undone :
      (fs fs0 fs1 : Files) (p : FilePath) (ps : List FilePath)
      → IsTree fs0
      → mkdir os fs0 p ≡ some fs1
      → Undoes ps fs0 fs
      → Undoes (p ∷ ps) fs1 fs
  unfolding remove_dirs
  dir_undone fs fs0 fs1 p ps t h back g same =
      let (e, same0) = mkdir_undone fs0 fs1 p t h g same in rw e (back (Dict.remove g p) same0)

  -- What `make_dirs` made of the missing ancestors, `remove_dirs` takes away.
  pub dirs_undone :
      (fs : Files) (a : Bool) (parts : List String) (fs1 : Files)
      → IsTree fs
      → make_dirs os fs (reverse (missing_from os fs a parts)) ≡ (true, fs1)
      → IsTree fs1 × Undoes (missing_from os fs a parts) fs1 fs
  unfolding missing_from make_dirs
  dirs_undone fs a [] fs1 t h = none_undone fs fs1 t (ap (λ (r : Bool × Files). r.1) h)
  dirs_undone fs a (n ∷ parts) fs1 t h =
      let p = at_parts a (n ∷ parts) in
      let ih = dirs_undone fs a parts in
      elim (Bool-cases (exists os fs p)) [
        | inl e ↦ rw e (none_undone fs fs1 t (ap (λ (r : Bool × Files). r.1) (rw e at h)))
        | inr e ↦
            let (fs0, made, m) =
              make_dirs_last_inv fs fs1 _ p
                (rw (e, reverse-append (p ∷ []) (missing_from os fs a parts)) at h) in
            let (t0, back) = ih fs0 t made in
            rw e (mkdir-IsTree fs0 fs1 p t0 m, dir_undone fs fs0 fs1 p _ t0 m back)
      ]
