-- ===== src/Transaction/Recover/Contents.antt =====
-- The calls of mihomoctl/transaction.py that write no content.
use mihomo_userctl.Base.{ℕ, ◌≡◌, ◌⊎◌, refl, inl, inr, Option, none, some, List, arith, take, nat_eq}
use mihomo_userctl.Base.Dict
use mihomo_userctl.Base.Dict.{Dict, get-put_self}
use mihomo_userctl.Files.{
  FilePath, path_eq, Bytes, Meta, Node, file, symlink, dir, special, Files, Os, lstat,
}
use mihomo_userctl.Files.Laws.{lstat-put_self, lstat-put_ne, lstat-remove_self, lstat-remove_ne}
use mihomo_userctl.Trust.{make_dirs}
use mihomo_userctl.Trust.Private.{make_dirs-OnlyNewDirs}
use mihomo_userctl.Transaction.{Fault, at_mkdir, Backup_eq}
use mihomo_userctl.Transaction.Publish.{make_some, unlink, chown}

-- The files are the same but for their owners, and for directories.
abbrev pub KeepsContents : Files → Files → Type 0
KeepsContents fs' fs =
    (q : FilePath) (b : Bytes) (m : Meta)
    → lstat fs' q ≡ some (file b m)
    → (m' : Meta) × (lstat fs q ≡ some (file b m'))

make_dirs-KeepsContents :
    (os : Os) (fs : Files) (ds : List FilePath) → KeepsContents (make_dirs os fs ds).1 fs
make_dirs-KeepsContents os fs ds q b m h = elim (make_dirs-OnlyNewDirs os fs ds q) [
  | inl e ↦ (m, rw (← e) h)
  | inr (_, e) ↦ absurd (cc (rw e at h))
]

pub make_some-KeepsContents :
    (os : Os) (fault : Fault) (ds : List FilePath) (fs : Files)
    → KeepsContents (make_some os fault ds fs).1 fs
make_some-KeepsContents os (at_mkdir n) ds fs = make_dirs-KeepsContents os fs (take n ds)
make_some-KeepsContents os _ ds fs = make_dirs-KeepsContents os fs ds

put-KeepsContents :
    (fs : Files) (p : FilePath) (n : Node)
    → ((b : Bytes) (m : Meta) → n ≡ file b m → (m' : Meta) × (lstat fs p ≡ some (file b m')))
    → KeepsContents (Dict.put fs p n) fs
put-KeepsContents fs p n old q b m h = elim (path_eq.dec p q) [
  | no e ↦ (m, rw (lstat-put_ne fs p q n e) at h)
  | yes e ↦
      let here = rw (← e, lstat-put_self) at h in
      let (m', found) = old b m cc in (m', rw (← e) found)
]

pub chown-KeepsContents :
    (p : FilePath) (uid gid : ℕ) (fs : Files) → KeepsContents (chown p uid gid fs).1 fs
unfolding chown
chown-KeepsContents p uid gid fs = of (lstat fs p) refl
  where
    of : (n : Option Node) → lstat fs p ≡ n → KeepsContents (chown p uid gid fs).1 fs
    of none e = rw (chown, e) (λ q b m h. (m, h))
    of (some (file b m)) e =
        rw (chown, e) (put-KeepsContents fs p _ (λ b' m' h. (m, same b m b' m' h e)))
      where
        same :
            (b : Bytes) (m : Meta) (b' : Bytes) (m' : Meta) {k : Meta}
            → file b k ≡ file b' m'
            → lstat fs p ≡ some (file b m)
            → lstat fs p ≡ some (file b' m)
        same b m b' m' h e = cc
    of (some (symlink t m)) e = rw (chown, e) (put-KeepsContents fs p _ (λ b' m' h. absurd cc))
    of (some (dir m)) e = rw (chown, e) (put-KeepsContents fs p _ (λ b' m' h. absurd cc))
    of (some (special m)) e = rw (chown, e) (put-KeepsContents fs p _ (λ b' m' h. absurd cc))

pub unlink-KeepsContents : (p : FilePath) (fs : Files) → KeepsContents (unlink p fs).1 fs
unfolding unlink
unlink-KeepsContents p fs =
    let either : ((unlink p fs).1 ≡ fs) ⊎ ((unlink p fs).1 ≡ Dict.remove fs p) = ground arith in
    elim either [
      | inl e ↦ rw e (λ q b m h. (m, h))
      | inr e ↦ rw e (λ q b m h. elim (path_eq.dec p q) [
        | yes e ↦ absurd (cc (rw (← e, lstat-remove_self) at h))
        | no n ↦ (m, rw (lstat-remove_ne fs p q n) at h)
      ])
    ]
