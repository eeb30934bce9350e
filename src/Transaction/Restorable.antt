-- ===== src/Transaction/Restorable.antt =====
-- The entries that `rollback` of mihomoctl/transaction.py can put back, and the steps by which it does.
use mihomo_userctl.Base.{
  ℕ, ◌≡◌, ◌≢◌, ◌⊎◌, ◌∙◌, ap, inl, inr, String, true, false, ◌&&◌, Option, none, some, arith, ◌==◌,
  nat_eq, Bool-cases, ok,
}
use mihomo_userctl.Base.Dict
use mihomo_userctl.Base.Dict.{Dict}
use mihomo_userctl.Files.{
  FilePath, path_eq, Bytes, Meta, Node, file, symlink, Files, Os, lstat, is_dir, is_symlink,
  has_parent,
}
use mihomo_userctl.Files.Laws.{Same, lstat-put_self, lstat-put_ne}
use mihomo_userctl.Transaction.{Backup_eq, no_fault}
use mihomo_userctl.Transaction.Publish.{atomic_write, chown}
use mihomo_userctl.Transaction.Rollback.{give_back, make_link}

-- The acting user can give a file this owner: it is root, or the owner is itself.
abbrev pub IsOwnable : Os → Meta → Type 0
IsOwnable os m = (os.uid ≡ 0) ⊎ ((m.uid ≡ os.uid) × (m.gid ≡ os.gid))

abbrev pub link_meta : Os → Meta
link_meta os = record { mode = 0o777; uid = os.uid; gid = os.gid }

-- What `rollback` can put back as it was: a file that the acting user can own, a symbolic link of
-- its own, or nothing.
abbrev pub IsRestorable : Os → Option Node → Type 0
IsRestorable os (some (file b m)) = IsOwnable os m
IsRestorable os (some (symlink t m)) = m ≡ link_meta os
IsRestorable os _ = Unit

-- Every path but `p` is as before.
abbrev pub SameBut : FilePath → Files → Files → Type 0
SameBut p fs fs' = (q : FilePath) → p ≢ q → lstat fs q ≡ lstat fs' q

pub Same-of_but :
    (p : FilePath) (fs fs' : Files) → SameBut p fs fs' → lstat fs p ≡ lstat fs' p → Same fs fs'
Same-of_but p fs fs' but here q = elim (path_eq.dec p q) [ yes e ↦ rw (← e) here | no e ↦ but q e ]

module _ (os : Os) (p : FilePath) (g : Files) where
  abbrev pub written : Bytes → ℕ → Files
  written b mode = Dict.put g p (file b (record { mode = mode; uid = os.uid; gid = os.gid }))

  pub atomic_write_ok :
      (b : Bytes) (mode : ℕ)
      → has_parent g p ≡ true
      → is_symlink (lstat g p) ≡ false
      → is_dir (lstat g p) ≡ false
      → atomic_write os no_fault p b mode g ≡ (ok tt, written b mode)
  unfolding atomic_write
  atomic_write_ok b mode up l d = rw (up, l, d)

  pub own_meta :
      (m : Meta)
      → (os.uid == m.uid && os.gid == m.gid) ≡ true
      → record { mode = m.mode; uid = os.uid; gid = os.gid } ≡ m
  own_meta m e = ground arith

  pub root_of :
      (m : Meta) → IsOwnable os m → (os.uid == m.uid && os.gid == m.gid) ≡ false → os.uid ≡ 0
  root_of m own e = ground arith

  pub chown_file :
      (fs : Files) (b : Bytes) (k : Meta) (u v : ℕ)
      → lstat fs p ≡ some (file b k)
      → chown p u v fs
        ≡ (ok tt, Dict.put fs p (file b (record { mode = k.mode; uid = u; gid = v })))
  unfolding chown
  chown_file fs b k u v e = rw (e, chown)

  pub give_back_ok :
      (b : Bytes) (m : Meta)
      → IsOwnable os m
      → (g' : Files) × (give_back os (some m) p (written b m.mode) ≡ (ok tt, g'))
        × (lstat g' p ≡ some (file b m))
        × SameBut p g' g
  unfolding give_back
  give_back_ok b m own = elim (Bool-cases (os.uid == m.uid && os.gid == m.gid)) [
    | inl e ↦ (
      written b m.mode,
      rw e,
      lstat-put_self g p _ ∙ ap (λ (k : Meta). some (file b k)) (own_meta m e),
      λ q ne. lstat-put_ne g p q _ ne,
    )
    | inr e ↦
        let root : (os.uid == 0) ≡ true = ground (arith, root_of m own e) in
        (
          Dict.put (written b m.mode) p (file b m),
          rw (e, root) (chown_file (written b m.mode) b _ m.uid m.gid (lstat-put_self g p _)),
          lstat-put_self (written b m.mode) p _,
          λ q ne. lstat-put_ne (written b m.mode) p q _ ne ∙ lstat-put_ne g p q _ ne,
        )
  ]

  pub make_link_ok :
      (t : String)
      → lstat g p ≡ none
      → has_parent g p ≡ true
      → make_link os (some t) p g ≡ (ok tt, Dict.put g p (symlink t (link_meta os)))
  unfolding make_link
  make_link_ok t absent up = rw (absent, up)
