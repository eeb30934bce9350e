-- ===== src/Transaction/Settled.antt =====
-- The part of `publish` and `delete` that follows the entry in the journal: it touches nothing but
-- the destination, whose entry stays one that `rollback` can clear.
use mihomo_userctl.Base.{
  ℕ, ◌≡◌, ◌⊎◌, refl, ◌∙◌, inl, inr, Bool, true, false, Option, none, some, List, arith, ◌==◌,
  nat_eq, Bool-cases, if◌then◌else◌, ok, raise,
}
use mihomo_userctl.Base.Dict
use mihomo_userctl.Base.Dict.{Dict}
use mihomo_userctl.Errors.{Exception, os_error}
use mihomo_userctl.Files.{
  FilePath, path_eq, Bytes, Meta, Node, file, symlink, dir, special, Files, Os, lstat, has_parent,
}
use mihomo_userctl.Files.Laws.{IsTree, lstat-put_self, lstat-put_ne, put-IsTree}
use mihomo_userctl.Trust.{Checked}
use mihomo_userctl.Transaction.{Backup, Record, Transaction, Outside, Fault, DocumentState, pending}
use mihomo_userctl.Transaction.Exec.{Exec, ◌>>=◌, ◌>>◌, on_files, continue}
use mihomo_userctl.Transaction.Publish.{persist, atomic_write, chown, restore_owner, persist_fault}
use mihomo_userctl.Transaction.Restorable.{IsOwnable, IsRestorable, SameBut}
use mihomo_userctl.Transaction.Undo.{IsPlain, not_dir}

-- Whether it returns or raises, the method keeps the property.
abbrev pub Keeps : (Transaction → Type 0) → {A : Type 0} → Exec A → Type 0
Keeps P m = (tx : Transaction) → P tx → P (m tx).1

pub Keeps-bind :
    (P : Transaction → Type 0) {A B : Type 0} (m : Exec A) (k : A → Exec B)
    → Keeps P m
    → ((a : A) → Keeps P (k a))
    → Keeps P (m >>= k)
Keeps-bind P m k km kk tx h = rest (m tx) (km tx h)
  where
    rest : (r : Checked _ × Transaction) → P r.1 → P (continue r.0 k r.1).1
    rest (ok a, tx') h = kk a tx' h
    rest (raise e, tx') h = h

-- The transaction once the journal is `journal`: the files are `fs` but for the path `p`.
pub record Settled (os : Os) (p : FilePath) (journal : List Record) (saved : Dict Backup Bytes)
    (fs : Files) (tx : Transaction) : Type 0 where
  pub journal_kept : tx.journal ≡ journal
  pub saved_kept : tx.saved ≡ saved
  pub but : SameBut p tx.files fs
  pub plain : IsPlain (lstat tx.files p)
  pub own : IsRestorable os (lstat tx.files p)
  pub tree : IsTree tx.files

-- Two file systems that differ at `p` alone, where an entry that can be cleared stays one.
pub record Touched (os : Os) (p : FilePath) (fs fs' : Files) : Type 0 where
  pub but : SameBut p fs' fs
  pub plain : IsPlain (lstat fs p) → IsPlain (lstat fs' p)
  pub own : IsPlain (lstat fs p) → IsRestorable os (lstat fs p) → IsRestorable os (lstat fs' p)
  pub tree : IsPlain (lstat fs p) → IsTree fs → IsTree fs'

module _ (os : Os) (p : FilePath) (fs : Files) where
  same-Touched : (fs' : Files) → fs' ≡ fs → Touched os p fs fs'
  same-Touched fs' e = record {
    but = λ q ne. rw e;
    plain = λ h. rw e h;
    own = λ h k. rw e k;
    tree = λ h t. rw e t;
  }

  -- A file that the acting user can own takes the place of the entry.
  put-Touched :
      (fs' : Files) (b : Bytes) (m : Meta)
      → fs' ≡ Dict.put fs p (file b m)
      → IsOwnable os m
      → (IsTree fs → has_parent fs p ≡ true)
      → Touched os p fs fs'
  put-Touched fs' b m e own up = record {
    but = λ q ne. rw e (lstat-put_ne fs p q _ ne);
    plain = λ h. rw (e, lstat-put_self) tt;
    own = λ h k. rw (e, lstat-put_self) own;
    tree = λ h t. rw e (put-IsTree fs p _ t (up t) (λ d. absurd (cc (not_dir (lstat fs p) h, d))));
  }

  atomic_write_files :
      (fault : Fault) (b : Bytes) (mode : ℕ)
      → ((atomic_write os fault p b mode fs).1 ≡ fs)
        ⊎ ((has_parent fs p ≡ true)
            × ((atomic_write os fault p b mode fs).1
                ≡ Dict.put fs p (file b (record { mode = mode; uid = os.uid; gid = os.gid }))))
  unfolding atomic_write
  atomic_write_files fault b mode = ground arith

  atomic_write-Touched :
      (fault : Fault) (b : Bytes) (mode : ℕ) → Touched os p fs (atomic_write os fault p b mode fs).1
  atomic_write-Touched fault b mode = elim (atomic_write_files fault b mode) [
    | inl e ↦ same-Touched _ e
    | inr (up, e) ↦ put-Touched _ b _ e (inr (refl, refl)) (λ t. up)
  ]

  chown_files :
      (u v : ℕ) (n : Option Node)
      → lstat fs p ≡ n
      → IsPlain n
      → ((chown p u v fs).1 ≡ fs)
        ⊎ ((b : Bytes) × (k : Meta) × (lstat fs p ≡ some (file b k))
            × ((chown p u v fs).1
                ≡ Dict.put fs p (file b (record { mode = k.mode; uid = u; gid = v }))))
  unfolding chown
  chown_files u v none e h = inl (rw (e, chown))
  chown_files u v (some (file b k)) e h = inr (b, k, e, rw (e, chown))
  chown_files u v (some (symlink _ _)) e h = absurd h
  chown_files u v (some (dir _)) e h = absurd h
  chown_files u v (some (special _)) e h = absurd h

  chown-Touched : (u v : ℕ) → os.uid ≡ 0 → IsPlain (lstat fs p) → Touched os p fs (chown p u v fs).1
  chown-Touched u v root h = elim (chown_files u v (lstat fs p) refl h) [
    | inl e ↦ same-Touched _ e
    | inr (b, k, e, w) ↦ put-Touched _ b _ w (inl root) (λ t. t.closed p (λ x. cc (x, e)))
  ]

  restore_owner-Touched :
      (out : Outside) (fault : Fault) (before : Option Meta)
      → IsPlain (lstat fs p)
      → Touched os p fs (restore_owner os out fault p before fs).1
  restore_owner-Touched out fault none h = same-Touched _ refl
  restore_owner-Touched out fault (some m) h = elim (Bool-cases (os.uid == 0)) [
    | inr e ↦ rw e (same-Touched _ refl)
    | inl e ↦ rw e (by_fault _ (chown-Touched m.uid m.gid (ground arith) h))
  ]
    where
      by_fault :
          (f : Bool)
          → Touched os p fs (chown p m.uid m.gid fs).1
          → Touched os p fs (if f then (raise os_error, fs) else chown p m.uid m.gid fs).1
      by_fault true t = same-Touched _ refl
      by_fault false t = t

module _ (os : Os) (p : FilePath) (journal : List Record) (saved : Dict Backup Bytes)
    (fs : Files) where
  -- A step on the files that touches the path alone.
  on_files-Settled :
      {A : Type 0} (f : Files → Checked A × Files)
      → ((fs' : Files) → IsPlain (lstat fs' p) → Touched os p fs' (f fs').1)
      → Keeps (Settled os p journal saved fs) (on_files f)
  on_files-Settled f touch tx h =
      let t = touch tx.files h.plain in
      record {
        journal_kept = h.journal_kept;
        saved_kept = h.saved_kept;
        but = λ q ne. t.but q ne ∙ h.but q ne;
        plain = t.plain h.plain;
        own = t.own h.plain h.own;
        tree = t.tree h.plain h.tree;
      }

  persist-Settled :
      (refusal : Option Exception) (state : DocumentState)
      → Keeps (Settled os p journal saved fs) (persist refusal state)
  unfolding persist
  persist-Settled none state tx h = record {
    journal_kept = h.journal_kept;
    saved_kept = h.saved_kept;
    but = h.but;
    plain = h.plain;
    own = h.own;
    tree = h.tree;
  }
  persist-Settled (some e) state tx h = h

  -- From the persisting of the journal to the end of `publish`.
  abbrev pub written_out : Outside → Fault → Bytes → ℕ → Option Meta → Exec Unit
  written_out out fault content mode before = do
    persist (persist_fault fault) pending
    on_files (atomic_write os fault p content mode)
    on_files (restore_owner os out fault p before)

  pub written_out-Settled :
      (out : Outside) (fault : Fault) (content : Bytes) (mode : ℕ) (before : Option Meta)
      → Keeps (Settled os p journal saved fs) (written_out out fault content mode before)
  written_out-Settled out fault content mode before =
      let settled = Settled os p journal saved fs in
      let write : Exec Unit = on_files (atomic_write os fault p content mode) in
      let give : Exec Unit = on_files (restore_owner os out fault p before) in
      Keeps-bind settled {A = Unit} {B = Unit} (persist (persist_fault fault) pending)
        (λ _. write >> give) (persist-Settled (persist_fault fault) pending)
        (λ _.
          Keeps-bind settled {A = Unit} {B = Unit} write (λ _. give)
            (on_files-Settled {A = Unit} (atomic_write os fault p content mode)
              (λ fs' _. atomic_write-Touched os p fs' fault content mode))
            (λ _.
              on_files-Settled {A = Unit} (restore_owner os out fault p before)
                (λ fs' h. restore_owner-Touched os p fs' out fault before h)))
