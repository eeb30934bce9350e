-- ===== src/Files/Laws.antt =====
-- Laws of paths and of the system calls, and the trees among the file systems.
use mihomo_userctl.Base.{
  ◌≡◌, ◌≢◌, Bool, true, false, not, ◌&&◌, none, some, [], ◌∷◌, arith, ◌==◌, Bool-cases, inl, inr,
  if◌then◌else◌,
}
use mihomo_userctl.Base.Dict
use mihomo_userctl.Base.Dict.{Dict, get-put, get-remove}
use mihomo_userctl.Files.{
  FilePath, path_eq, Node, Files, lstat, parent, is_dir, has_child, has_parent,
}

pub lstat-put :
    (fs : Files) (p q : FilePath) (n : Node)
    → lstat (Dict.put fs p n) q ≡ (if p == q then some n else lstat fs q)
unfolding lstat
lstat-put fs p q n = get-put fs p q n

pub lstat-remove :
    (fs : Files) (p q : FilePath)
    → lstat (Dict.remove fs p) q ≡ (if p == q then none else lstat fs q)
unfolding lstat
lstat-remove fs p q = get-remove fs p q

pub lstat-put_self : (fs : Files) (p : FilePath) (n : Node) → lstat (Dict.put fs p n) p ≡ some n
lstat-put_self fs p n = rw lstat-put (ground arith)

pub lstat-put_ne :
    (fs : Files) (p q : FilePath) (n : Node) → p ≢ q → lstat (Dict.put fs p n) q ≡ lstat fs q
lstat-put_ne fs p q n h = rw lstat-put (ground arith)

pub lstat-remove_self : (fs : Files) (p : FilePath) → lstat (Dict.remove fs p) p ≡ none
lstat-remove_self fs p = rw lstat-remove (ground arith)

pub lstat-remove_ne :
    (fs : Files) (p q : FilePath) → p ≢ q → lstat (Dict.remove fs p) q ≡ lstat fs q
lstat-remove_ne fs p q h = rw lstat-remove (ground arith)

-- Two file systems that no `lstat` tells apart.
abbrev pub Same : Files → Files → Type 0
Same fs fs' = (p : FilePath) → lstat fs p ≡ lstat fs' p

-- The root and the working directory are directories, and every entry lies in a directory.
pub record IsTree (fs : Files) : Type 0 where
  pub rooted : (a : Bool) → is_dir (lstat fs (record { absolute = a; parts = [] })) ≡ true
  pub closed : (p : FilePath) → lstat fs p ≢ none → is_dir (lstat fs (parent p)) ≡ true

has_key : (fs : Files) (p : FilePath) (n : Node) → lstat ((p, n) ∷ fs) p ≢ none
unfolding lstat Dict.get
has_key fs p n = ground arith

has_more :
    (fs : Files) (p q : FilePath) (n : Node) → lstat fs q ≢ none → lstat ((p, n) ∷ fs) q ≢ none
unfolding lstat Dict.get
has_more fs p q n h = ground arith

child_test : (q p d : FilePath) → (q == d && not (p == d)) ≡ true → (q ≡ d) × (p ≢ d)
child_test q p d h = ground arith

-- A directory that has a child is the parent of some entry.
pub has_child-found :
    (fs : Files) (d : FilePath)
    → has_child fs d ≡ true
    → (c : FilePath) × (parent c ≡ d) × (c ≢ d) × (lstat fs c ≢ none)
has_child-found [] d h = cc
has_child-found ((p, n) ∷ fs) d h = elim (Bool-cases (parent p == d && not (p == d))) [
  | inl e ↦ let (a, b) = child_test (parent p) p d e in (p, a, b, has_key fs p n)
  | inr e ↦ let (c, a, b, f) = has_child-found fs d (ground arith) in (c, a, b, has_more fs p c n f)
]

-- In a tree, what is not there has no children.
pub has_child_absent :
    (fs fs' : Files) (d : FilePath)
    → IsTree fs
    → ((c : FilePath) → c ≢ d → lstat fs' c ≡ lstat fs c)
    → lstat fs d ≡ none
    → has_child fs' d ≡ false
has_child_absent fs fs' d t same h = elim (Bool-cases (has_child fs' d)) [
  | inr e ↦ e
  | inl e ↦ let (c, a, b, f) = has_child-found fs' d e in ground (arith, same c b, t.closed c)
]

module _ (fs : Files) (p : FilePath) (n : Node) (t : IsTree fs) where
  put-closed :
      has_parent fs p ≡ true
      → (is_dir (lstat fs p) ≡ true → is_dir (some n) ≡ true)
      → (q : FilePath) → lstat (Dict.put fs p n) q ≢ none
      → is_dir (lstat fs (parent q)) ≡ true
  put-closed h keep q f = elim (path_eq.dec p q) [
    | yes e ↦ rw (← e) h
    | no e ↦ t.closed q (rw (lstat-put_ne fs p q n e) at f)
  ]

  -- Putting an entry into a directory keeps the tree, unless a directory is replaced by a file.
  pub put-IsTree :
      has_parent fs p ≡ true
      → (is_dir (lstat fs p) ≡ true → is_dir (some n) ≡ true)
      → IsTree (Dict.put fs p n)
  put-IsTree h keep = record {
    rooted = λ a. under _ (t.rooted a);
    closed = λ q f. under _ (put-closed h keep q f);
  }
    where
      under :
          (d : FilePath) → is_dir (lstat fs d) ≡ true → is_dir (lstat (Dict.put fs p n) d) ≡ true
      under d e = elim (path_eq.dec p d) [
        | yes same ↦ rw (← same, lstat-put_self) (keep (rw same e))
        | no other ↦ rw (lstat-put_ne fs p d n other) e
      ]

module _ (fs : Files) (p : FilePath) (t : IsTree fs) where
  -- Removing anything but a directory keeps the tree.
  pub remove-IsTree : is_dir (lstat fs p) ≡ false → IsTree (Dict.remove fs p)
  remove-IsTree h = record {
    rooted = λ a. under _ (t.rooted a);
    closed = λ q f. under _ (t.closed q (kept q f));
  }
    where
      under :
          (d : FilePath) → is_dir (lstat fs d) ≡ true → is_dir (lstat (Dict.remove fs p) d) ≡ true
      under d e = elim (path_eq.dec p d) [
        | yes same ↦ absurd (cc (h, e, same))
        | no other ↦ rw (lstat-remove_ne fs p d other) e
      ]

      kept : (q : FilePath) → lstat (Dict.remove fs p) q ≢ none → lstat fs q ≢ none
      kept q f = elim (path_eq.dec p q) [
        | yes same ↦ absurd (f (rw (← same) (lstat-remove_self fs p)))
        | no other ↦ rw (lstat-remove_ne fs p q other) at f
      ]
