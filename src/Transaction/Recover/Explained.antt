-- ===== src/Transaction/Recover/Explained.antt =====
-- Why a file is there: `recover_transactions` of mihomoctl/transaction.py accepts what a record published
-- or what a backup has.
use mihomo_userctl.Base.{
  ◌≡◌, ◌⊎◌, refl, inl, inr, String, Bool, true, false, ◌||◌, ◌&&◌, ◌==◌, Option, none, some, List,
  [], ◌∷◌, ◌++◌, contains, ok, arith, string_eq, Bool-cases,
}
use mihomo_userctl.Base.Dict
use mihomo_userctl.Base.Dict.{Dict, get-put, get-put_self}
use mihomo_userctl.Files.{FilePath, path_eq, Bytes, Meta, file, Files, Os, lstat, Node}
use mihomo_userctl.Transaction.{Transaction, Outside, Scope, Record, Backup, Backup_eq}
use mihomo_userctl.Transaction.Undo.{Extends}
use mihomo_userctl.Transaction.Recover.{final, as_list}
use mihomo_userctl.Transaction.Recover.Reopen.{
  backup_digest, backup_digests, check_drift, is_drifted,
}

-- Every key stands once.
abbrev pub IsDistinct : Dict FilePath Record → Type 0
IsDistinct [] = Unit
IsDistinct ((k, v) ∷ d) = (Dict.get d k ≡ none) × IsDistinct d

put-IsDistinct :
    (d : Dict FilePath Record) (k : FilePath) (v : Record)
    → IsDistinct d
    → IsDistinct (Dict.put d k v)
unfolding Dict.put Dict.get
put-IsDistinct [] k v h = (refl, tt)
put-IsDistinct ((j, w) ∷ d) k v h = elim (Bool-cases (j == k)) [
  | inl e ↦ rw e (ground (arith, h.0, e), h.1)
  | inr e ↦ rw e (ground (arith, h.0, e, get-put d k j v), put-IsDistinct d k v h.1)
]

final-append :
    (d : Dict FilePath Record) (rs : List Record) (r : Record)
    → final d (rs ++ r ∷ []) ≡ Dict.put (final d rs) r.path r
unfolding final
final-append d [] r = refl
final-append d (x ∷ rs) r = final-append (Dict.put d x.path x) rs r

pub final-last :
    (rs : List Record) (r : Record) → Dict.get (final [] (rs ++ r ∷ [])) r.path ≡ some r
final-last rs r = rw final-append (get-put_self (final [] rs) r.path r)

final-IsDistinct :
    (rs : List Record) (d : Dict FilePath Record) → IsDistinct d → IsDistinct (final d rs)
unfolding final
final-IsDistinct [] d h = h
final-IsDistinct (r ∷ rs) d h =
    final-IsDistinct rs (Dict.put d r.path r) (put-IsDistinct d r.path r h)

contains-either :
    (xs ys : List String) (a : String) → contains (xs ++ ys) a ≡ (contains xs a || contains ys a)
contains-either [] ys a = refl
contains-either (x ∷ xs) ys a = ground (arith, contains-either xs ys a)

module _ (os : Os) (out : Outside) (s : Scope) (home : FilePath) where
  abbrev is_saved : Dict Backup Bytes → FilePath → List Record → String → Bool
  is_saved saved p rs a = contains (backup_digests os out s home saved p rs) a

  abbrev pub has_digest : Dict Backup Bytes → Option Backup → String → Bool
  has_digest saved o a = contains (backup_digest os out s home saved o) a

  is_saved-append :
      (saved : Dict Backup Bytes) (p : FilePath) (rs : List Record) (r : Record) (a : String)
      → is_saved saved p (rs ++ r ∷ []) a
        ≡ (is_saved saved p rs a || (r.path == p && has_digest saved r.backup a))
  unfolding backup_digests
  is_saved-append saved p [] r a = elim (Bool-cases (r.path == p)) [
    | inl e ↦ rw (e, contains-either (backup_digest os out s home saved r.backup) [] a) ground arith
    | inr e ↦ rw e refl
  ]
  is_saved-append saved p (x ∷ rs) r a =
      let rest = is_saved-append saved p rs r a in
      elim (Bool-cases (x.path == p)) [
        | inl e ↦
            rw
              (
                e,
                contains-either (backup_digest os out s home saved x.backup)
                    (backup_digests os out s home saved p rs) a,
                contains-either (backup_digest os out s home saved x.backup)
                    (backup_digests os out s home saved p (rs ++ r ∷ [])) a,
              )
              ground (arith, rest)
        | inr e ↦ rw e rest
      ]

  has_digest-Extends :
      (saved saved' : Dict Backup Bytes) (o : Option Backup) (a : String)
      → Extends saved saved'
      → has_digest saved o a ≡ true
      → has_digest saved' o a ≡ true
  has_digest-Extends saved saved' none a x h = h
  has_digest-Extends saved saved' (some name) a x h = of (Dict.get saved name) refl h
    where
      of :
          (o : Option Bytes)
          → Dict.get saved name ≡ o
          → contains (elim o [ none ↦ [] | some b ↦ out.sha256 b ∷ [] ]) a ≡ true
          → has_digest saved' (some name) a ≡ true
      of none e h = cc
      of (some b) e h = rw (has_digest, backup_digest, x name b e) h

  pub has_digest-put :
      (saved : Dict Backup Bytes) (name : Backup) (b : Bytes)
      → has_digest (Dict.put saved name b) (some name) (out.sha256 b) ≡ true
  has_digest-put saved name b = rw (has_digest, backup_digest, get-put_self) ground arith

  is_saved-Extends :
      (saved saved' : Dict Backup Bytes) (p : FilePath) (rs : List Record) (a : String)
      → Extends saved saved'
      → is_saved saved p rs a ≡ true
      → is_saved saved' p rs a ≡ true
  unfolding backup_digests
  is_saved-Extends saved saved' p [] a x h = h
  is_saved-Extends saved saved' p (r ∷ rs) a x h =
      let rest = is_saved-Extends saved saved' p rs a x in
      let first = has_digest-Extends saved saved' r.backup a x in
      let split =
        contains-either (backup_digest os out s home saved r.backup)
          (backup_digests os out s home saved p rs) a in
      let split' =
        contains-either (backup_digest os out s home saved' r.backup)
          (backup_digests os out s home saved' p rs) a in
      elim (Bool-cases (r.path == p)) [
        | inl e ↦
            let before = rw (e, split) at h in rw (e, split') (ground (arith, before, rest, first))
        | inr e ↦ rw e (rest (rw e at h))
      ]

  abbrev pub is_explained : List Record → Dict Backup Bytes → FilePath → Record → Bytes → Bool
  is_explained journal saved p last b =
      contains (as_list last.published_sha256) (out.sha256 b)
      || is_saved saved p journal (out.sha256 b)

  -- Every file with a record has what its last record published, or a backup of it.
  abbrev pub IsExplained : List Record → Dict Backup Bytes → Files → Type 0
  IsExplained journal saved fs =
      (p : FilePath) (last : Record) (b : Bytes) (m : Meta)
      → Dict.get (final [] journal) p ≡ some last
      → lstat fs p ≡ some (file b m)
      → is_explained journal saved p last b ≡ true

  -- Nothing is written but what is already known of the path.
  abbrev pub ComesFrom : Files → FilePath → Bytes → Files → Type 0
  ComesFrom fs' p content fs =
      (q : FilePath) (b : Bytes) (m : Meta)
      → lstat fs' q ≡ some (file b m)
      → ((m' : Meta) × (lstat fs q ≡ some (file b m'))) ⊎ ((q ≡ p) × (b ≡ content))

  pub IsExplained-begun :
      (journal : List Record) (saved : Dict Backup Bytes) (fs : Files)
      → journal ≡ []
      → IsExplained journal saved fs
  unfolding final Dict.get
  IsExplained-begun journal saved fs e p last b m found at = absurd (cc (rw e at found))

  pub IsExplained-saved :
      (journal : List Record) (saved saved' : Dict Backup Bytes) (fs : Files)
      → Extends saved saved'
      → IsExplained journal saved fs
      → IsExplained journal saved' fs
  IsExplained-saved journal saved saved' fs x h p last b m found at =
      let before = h p last b m found at in
      let kept = is_saved-Extends saved saved' p journal (out.sha256 b) x in
      ground (arith, before, kept)

  pub IsExplained-logged :
      (journal : List Record) (saved : Dict Backup Bytes) (fs : Files) (r : Record)
      → ((b : Bytes) (m : Meta)
          → lstat fs r.path ≡ some (file b m)
          → has_digest saved r.backup (out.sha256 b) ≡ true)
      → IsExplained journal saved fs
      → IsExplained (journal ++ r ∷ []) saved fs
  IsExplained-logged journal saved fs r covered h p last b m found at =
      let is_last =
        rw (final-append [] journal r, get-put (final [] journal) r.path p r) at found in
      let splits = is_saved-append saved p journal r (out.sha256 b) in
      elim (path_eq.dec r.path p) [
        | yes e ↦
            let here = covered b m (rw e at) in
            let same : (r.path == p) ≡ true = ground (arith, e) in
            ground (arith, splits, here, same)
        | no n ↦
            let before = h p last b m (ground (arith, is_last, n)) at in
            ground (arith, splits, before)
      ]

  -- The last record of `p` published the content that may be written there.
  pub IsExplained-written :
      (journal : List Record) (saved : Dict Backup Bytes) (fs fs' : Files) (p : FilePath)
      (content : Bytes)
      → ((last : Record)
          → Dict.get (final [] journal) p ≡ some last
          → last.published_sha256 ≡ some (out.sha256 content))
      → ComesFrom fs' p content fs
      → IsExplained journal saved fs
      → IsExplained journal saved fs'
  IsExplained-written journal saved fs fs' p content published from h q last b m found at =
      elim (from q b m at) [
        | inl (m', before) ↦ h q last b m' found before
        | inr (here, same) ↦
            let said = published last (rw (← here) found) in
            let holds : contains (as_list last.published_sha256) (out.sha256 b) ≡ true =
              rw (said, same) ground arith in
            ground (arith, holds)
      ]

  -- What is explained did not drift.
  check_drift-explained :
      (tx : Transaction) (ds : Dict FilePath Record)
      → IsDistinct ds
      → ((p : FilePath) (last : Record) (b : Bytes) (m : Meta)
          → Dict.get ds p ≡ some last
          → lstat tx.files p ≡ some (file b m)
          → is_explained tx.journal tx.saved p last b ≡ true)
      → check_drift os out s home tx ds ≡ ok tt
  unfolding check_drift Dict.get
  check_drift-explained tx [] h g = refl
  check_drift-explained tx ((p, last) ∷ ds) h g =
      let rest =
        check_drift-explained tx ds h.1
          (λ q l b m found at. g q l b m (ground (arith, h.0, found)) at) in
      let passes : is_drifted os out s home tx p last (lstat tx.files p) ≡ false =
        fits (lstat tx.files p) (λ b m. g p last b m ground arith) in
      rw (passes, rest) refl
    where
      fits :
          (n : Option Node)
          → ((b : Bytes) (m : Meta)
              → n ≡ some (file b m)
              → is_explained tx.journal tx.saved p last b ≡ true)
          → is_drifted os out s home tx p last n ≡ false
      fits none k = refl
      fits (some (file b m)) k =
          rw
            (
              contains-either (as_list last.published_sha256)
                  (backup_digests os out s home tx.saved p tx.journal) (out.sha256 b),
              k b m refl,
            )
            refl
      fits (some _) k = refl

  -- The check of the drift passes on the files that a transaction explains.
  pub check_drift-final :
      (tx : Transaction)
      → IsExplained tx.journal tx.saved tx.files
      → check_drift os out s home tx (final [] tx.journal) ≡ ok tt
  check_drift-final tx h =
      check_drift-explained tx (final [] tx.journal) (final-IsDistinct tx.journal [] tt) h
