-- ===== src/Transaction/Recover/Writes.antt =====
-- What `write_bytes` of mihomoctl/transaction.py leaves at any of its calls is explained by its journal.
use mathlib.Core.List.{reverse}
use mihomo_userctl.Base.{
  ℕ, ◌≡◌, ◌⊎◌, refl, inl, inr, sym, String, true, Option, none, some, [], ◌∷◌, ◌++◌, ok, raise,
  Bool-cases, arith, nat_eq,
}
use mihomo_userctl.Base.Dict
use mihomo_userctl.Base.Dict.{Dict, get-put_self}
use mihomo_userctl.Errors.{Exception}
use mihomo_userctl.Files.{
  FilePath, path_eq, Bytes, Meta, Node, file, symlink, dir, special, Files, Os, lstat, parent,
}
use mihomo_userctl.Files.Laws.{lstat-put_self, lstat-put_ne}
use mihomo_userctl.Trust.{Checked, missing}
use mihomo_userctl.Transaction.{
  Transaction, Document, Outside, Scope, Fault, pending, Record, publish, regular, Backup,
  Backup_eq,
}
use mihomo_userctl.Transaction.Exec.{Exec, ◌>>=◌, continue, on_files, ◌>>◌}
use mihomo_userctl.Transaction.Destination.{check_destination}
use mihomo_userctl.Transaction.Publish
use mihomo_userctl.Transaction.Publish.{
  persist, save, save_link, stage, append_record, write_recorded, publish_over, write_bytes,
  delete_at, refuse_if, read_staged, fails_write, delete_recorded, make_some, atomic_write,
  restore_owner, stage_name, unlink, check_marker, fails_stage, fails_backup, persist_fault, blank,
  chown,
}
use mihomo_userctl.Transaction.Effects.{save_run, Extends-put}
use mihomo_userctl.Transaction.Recover.{final}
use mihomo_userctl.Transaction.Recover.Explained.{
  IsExplained, ComesFrom, has_digest, has_digest-put, final-last, IsExplained-saved,
  IsExplained-logged, IsExplained-written,
}
use mihomo_userctl.Transaction.Recover.Contents.{
  KeepsContents, make_some-KeepsContents, chown-KeepsContents,
}

module _ (os : Os) (out : Outside) (s : Scope) (home : FilePath) where
  abbrev pub IsFine : Transaction → Type 0
  IsFine tx = IsExplained os out s home tx.journal tx.saved tx.files

  -- A call whose changes are explained, and what comes after it.
  pub continue-IsFine :
      {A B : Type 0} (r : Checked A) (k : A → Exec B) (tx : Transaction)
      → IsFine tx
      → ((a : A) → r ≡ ok a → IsFine (k a tx).1)
      → IsFine (continue r k tx).1
  continue-IsFine (ok a) k tx h g = g a refl
  continue-IsFine (raise e) k tx h g = h

  pub kept-IsFine :
      (tx : Transaction) (fs : Files)
      → KeepsContents fs tx.files
      → IsFine tx
      → IsFine (record tx { files = fs })
  kept-IsFine tx fs k h p last b m found at =
      let (m', before) = k p b m at in h p last b m' found before

  put-ComesFrom :
      (fs : Files) (p : FilePath) (content : Bytes) (m : Meta)
      → ComesFrom os out s home (Dict.put fs p (file content m)) p content fs
  put-ComesFrom fs p content m q b m' h = elim (path_eq.dec p q) [
    | no e ↦ inl (m', rw (lstat-put_ne fs p q _ e) at h)
    | yes e ↦ let here = rw (← e, lstat-put_self) at h in inr (sym e, cc)
  ]

  module _ (fault : Fault) where
    -- A record of `p` whose backup, where there is a file, has the file.
    abbrev pub Covers : Record → Transaction → Type 0
    Covers r tx =
        (b : Bytes) (m : Meta)
        → lstat tx.files r.path ≡ some (file b m)
        → has_digest os out s home tx.saved r.backup (out.sha256 b) ≡ true

    atomic_write-ComesFrom :
        (p : FilePath) (content : Bytes) (mode : ℕ) (fs : Files)
        → ComesFrom os out s home (atomic_write os fault p content mode fs).1 p content fs
    unfolding atomic_write
    atomic_write-ComesFrom p content mode fs =
        let fs' =
          Dict.put fs p (file content (record { mode = mode; uid = os.uid; gid = os.gid })) in
        let either : ((atomic_write os fault p content mode fs).1 ≡ fs)
            ⊎ ((atomic_write os fault p content mode fs).1 ≡ fs') =
          ground arith in
        elim either [
          | inl e ↦ rw e (λ q b m h. inl (m, h))
          | inr e ↦ rw e (put-ComesFrom fs p content _)
        ]

    restore_owner-KeepsContents :
        (p : FilePath) (before : Option Meta) (fs : Files)
        → KeepsContents (restore_owner os out fault p before fs).1 fs
    restore_owner-KeepsContents p none fs = λ q b m h. (m, h)
    restore_owner-KeepsContents p (some old) fs =
        let either : ((restore_owner os out fault p (some old) fs).1 ≡ fs)
            ⊎ ((restore_owner os out fault p (some old) fs).1 ≡ (chown p old.uid old.gid fs).1) =
          ground arith in
        elim either [
          | inl e ↦ rw e (λ q b m h. (m, h))
          | inr e ↦ rw e (chown-KeepsContents p old.uid old.gid fs)
        ]

    pub persist-IsFine :
        {A : Type 0} (refusal : Option Exception) (k : Unit → Exec A) (tx : Transaction)
        → IsFine tx
        → ((at : Option Document) → IsFine (k tt (record tx { stored = at })).1)
        → IsFine ((persist refusal pending >>= k) tx).1
    unfolding persist
    persist-IsFine (some e) k tx h g = h
    persist-IsFine none k tx h g = g _

    written-IsFine :
        (p : FilePath) (content : Bytes) (mode : ℕ) (before : Option Meta) (tx : Transaction)
        → ((last : Record)
            → Dict.get (final [] tx.journal) p ≡ some last
            → last.published_sha256 ≡ some (out.sha256 content))
        → IsFine tx
        → IsFine
            ((on_files (atomic_write os fault p content mode)
                >> on_files (restore_owner os out fault p before))
              tx).1
    written-IsFine p content mode before tx published h =
        let (r, fs) = atomic_write os fault p content mode tx.files in
        let now =
          IsExplained-written os out s home tx.journal tx.saved tx.files fs p content published
            (atomic_write-ComesFrom p content mode tx.files) h in
        continue-IsFine r (λ _. on_files (restore_owner os out fault p before))
          (record tx { files = fs }) now
          (λ _ _.
            kept-IsFine (record tx { files = fs }) (restore_owner os out fault p before fs).1
              (restore_owner-KeepsContents p before fs) now)

    write_recorded-IsFine :
        (staged : String) (p : FilePath) (mode : ℕ) (before : Option Meta) (r : Record)
        (tx : Transaction)
        → r.path ≡ p
        → Covers r tx
        → IsFine tx
        → IsFine (write_recorded os out fault staged p mode before r tx).1
    unfolding write_recorded append_record
    write_recorded-IsFine staged p mode before r tx here covers h =
        let dirs = missing os tx.files (parent p) in
        let (made, fs) = make_some os fault (reverse dirs) tx.files in
        let keeps = make_some-KeepsContents os fault (reverse dirs) tx.files in
        let tx1 = record tx { files = fs } in
        let now = kept-IsFine tx fs keeps h in
        continue-IsFine made _ tx1 now (λ _ _.
          continue-IsFine (read_staged os out fault staged tx1).0 _ tx1 now (λ content _.
            let r' = record r {
              created_dirs = dirs;
              published_sha256 = some (out.sha256 content);
            } in
            let tx2 = record tx1 { journal = tx.journal ++ r' ∷ [] } in
            let logged =
              IsExplained-logged os out s home tx.journal tx.saved fs r'
                (λ b m at. let (m', old) = keeps r.path b m at in covers b m' old) now in
            let published : (last : Record)
                → Dict.get (final [] tx2.journal) p ≡ some last
                → last.published_sha256 ≡ some (out.sha256 content) =
              λ last found. let is_last = rw here at (final-last tx.journal r') in cc in
            persist-IsFine (persist_fault fault) _ tx2 logged (λ at.
              written-IsFine p content mode before (record tx2 { stored = at }) published logged)))

    -- The backup of the file that is there.
    pub save-IsFine :
        {A : Type 0} (p : FilePath) (b : Bytes) (m : Meta) (k : Backup → Exec A) (tx : Transaction)
        → lstat tx.files p ≡ some (file b m)
        → IsFine tx
        → ((name : Backup) (tx' : Transaction)
            → ((r : Record) → r.path ≡ p → r.backup ≡ some name → Covers r tx')
            → IsFine tx'
            → IsFine (k name tx').1)
        → IsFine ((save os out fault p b >>= k) tx).1
    save-IsFine p b m k tx at h g = elim (save_run os out fault p b tx) [
      | inl f ↦ rw f h
      | inr (fresh, f) ↦ rw f (
          g _ _
            (λ r here named b' m' found.
              let same : b' ≡ b = cc (rw here at found, at) in
              rw (named, same) (has_digest-put os out s home tx.saved _ b))
            (IsExplained-saved os out s home tx.journal tx.saved _ tx.files
              (Extends-put tx.saved _ b fresh) h))
    ]

    publish_over-IsFine :
        (staged : String) (p : FilePath) (mode : Option ℕ) (found : Option Node) (tx : Transaction)
        → lstat tx.files p ≡ found
        → IsFine tx
        → IsFine (publish_over os out fault staged p mode found tx).1
    unfolding publish_over
    publish_over-IsFine staged p mode none tx at h =
        write_recorded-IsFine staged p _ none
          (record (blank os out fault publish p) { created = true }) tx refl
          (λ b m e. absurd (cc (e, at))) h
    publish_over-IsFine staged p mode (some (file b m)) tx at h =
        save-IsFine p b m _ tx at h (λ name tx' covers h'.
          let r = record (blank os out fault publish p) {
            type = some regular;
            meta = some m;
            backup = some name;
          } in
          write_recorded-IsFine staged p _ (some m) r tx' refl (covers r refl refl) h')
    publish_over-IsFine staged p mode (some (symlink t m)) tx at h = h
    publish_over-IsFine staged p mode (some (dir m)) tx at h = h
    publish_over-IsFine staged p mode (some (special m)) tx at h = h

    publish-IsFine :
        (staged : String) (p : FilePath) (mode : Option ℕ) (tx : Transaction)
        → IsFine tx
        → IsFine (Publish.publish os out fault s staged p mode tx).1
    unfolding Publish.publish
    publish-IsFine staged p mode tx h =
        continue-IsFine (check_destination os s tx p) _ tx h
          (λ _ _. publish_over-IsFine staged p mode (lstat tx.files p) tx refl h)

    pub write_bytes-IsFine :
        (p : FilePath) (content : Bytes) (mode : Option ℕ) (tx : Transaction)
        → IsFine tx
        → IsFine (write_bytes os out fault s p content mode tx).1
    unfolding write_bytes stage
    write_bytes-IsFine p content mode tx h = elim (Bool-cases (fails_stage fault)) [
      | inl e ↦ rw e h
      | inr e ↦ rw e (publish-IsFine (stage_name os out fault s p) p mode _ h)
    ]
