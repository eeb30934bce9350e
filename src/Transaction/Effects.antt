-- ===== src/Transaction/Effects.antt =====
-- What an operation of a transaction does to the files, by the record that it adds to the journal.
use mathlib.Core.List.{reverse}
use mihomo_userctl.Base.{
  ℕ, zero, suc, ◌<◌, ◌≡◌, ◌≢◌, ◌⊎◌, refl, ◌∙◌, ap, inl, inr, String, Bool, true, none, some, List,
  [], ◌∷◌, ◌++◌, arith, nat_eq, string_eq, ok, raise, length,
}
use mihomo_userctl.Base.Dict
use mihomo_userctl.Base.Dict.{Dict, get-put, get-put_self}
use mihomo_userctl.Errors.{os_error}
use mihomo_userctl.Files.{
  FilePath, path_eq, Bytes, Meta, file, Files, Os, lstat, parent, parents, is_dir, has_parent,
  exists,
}
use mihomo_userctl.Files.Laws.{Same, IsTree}
use mihomo_userctl.Trust.{make_dirs, missing, missing_from}
use mihomo_userctl.Trust.Ancestors.{AreSafe}
use mihomo_userctl.Trust.Private.{make_dirs-OnlyNewDirs}
use mihomo_userctl.Transaction.{
  publish, regular, Backup, Backup_eq, Record, Transaction, Outside, Fault, at_mkdir,
}
use mihomo_userctl.Transaction.Publish.{make_some, blank, write_recorded, save, append_record}
use mihomo_userctl.Transaction.Directories.{dirs_made, dirs_undone, make_dirs_beyond}
use mihomo_userctl.Transaction.Restorable.{IsOwnable, IsRestorable, SameBut}
use mihomo_userctl.Transaction.Undo.{
  IsPlain, Extends, Reverts, created_record, replaced_record, created-Reverts, replaced-Reverts,
}
use mihomo_userctl.Transaction.Settled.{Settled, written_out-Settled}

-- No call of `mkdir` fails after another one of the same `publish` has made a directory.
abbrev pub IsClean : Fault → Type 0
IsClean (at_mkdir (suc n)) = ⊥
IsClean _ = Unit

-- Either nothing that the journal has to undo, or one more record that undoes it.
pub data Effect (os : Os) (journal : List Record) (fs : Files) (tx' : Transaction) : Type 0 where
  quiet : tx'.journal ≡ journal → Same tx'.files fs → Effect os journal fs tx'
  logged :
      (r : Record)
      → tx'.journal ≡ journal ++ r ∷ []
      → ((saved : Dict Backup Bytes) → Extends tx'.saved saved → Reverts os saved r tx'.files fs)
      → Effect os journal fs tx'

pub record SoundFrom (os : Os) (journal : List Record) (fs : Files) (saved : Dict Backup Bytes)
    (tx' : Transaction) : Type 0 where
  pub effect : Effect os journal fs tx'
  pub tree : IsTree tx'.files
  pub extends : Extends saved tx'.saved
  pub restorable :
      (q : FilePath) → IsRestorable os (lstat fs q) → IsRestorable os (lstat tx'.files q)

-- What an operation that starts from `tx` and leaves `tx'` has done.
abbrev pub IsSound : Os → Transaction → Transaction → Type 0
IsSound os tx tx' = SoundFrom os tx.journal tx.files tx.saved tx'

-- The checks of `check_destination` reach the parent, where there is one.
safe_parent :
    (owners : List ℕ) (fs : Files) (p : FilePath)
    → IsTree fs
    → lstat fs p ≡ none
    → AreSafe owners fs (parents p)
    → AreSafe owners fs (parent p ∷ parents (parent p)) × (length (parent p).parts < length p.parts)
safe_parent owners fs p t absent s = by_parts p.parts absent s
  where
    by_parts :
        (parts : List String)
        → lstat fs (record { absolute = p.absolute; parts = parts }) ≡ none
        → AreSafe owners fs (parents (record { absolute = p.absolute; parts = parts }))
        → AreSafe owners fs (
            parent (record { absolute = p.absolute; parts = parts })
            ∷ parents (parent (record { absolute = p.absolute; parts = parts })))
          × (length (parent (record { absolute = p.absolute; parts = parts })).parts < length parts)
    by_parts [] e s = absurd (cc (ap is_dir e, t.rooted p.absolute))
    by_parts (n ∷ parts) e s = (s, omega arith)

make_some_run :
    (os : Os) (fault : Fault) (dirs : List FilePath) (fs fs1 : Files)
    → IsClean fault
    → make_dirs os fs dirs ≡ (true, fs1)
    → (make_some os fault dirs fs ≡ (raise os_error, fs))
      ⊎ (make_some os fault dirs fs ≡ (ok tt, fs1))
unfolding make_dirs
make_some_run os (at_mkdir zero) dirs fs fs1 c e = inl refl
make_some_run os (at_mkdir (suc n)) dirs fs fs1 c e = absurd c
make_some_run os _ dirs fs fs1 c e = inr (rw e)

make_none_run :
    (os : Os) (fault : Fault) (fs : Files)
    → (make_some os fault [] fs ≡ (raise os_error, fs)) ⊎ (make_some os fault [] fs ≡ (ok tt, fs))
unfolding make_dirs
make_none_run os (at_mkdir zero) fs = inl refl
make_none_run os (at_mkdir (suc n)) fs = inl refl
make_none_run os _ fs = inr refl

missing_present :
    (os : Os) (fs : Files) (a : Bool) (parts : List String)
    → is_dir (lstat fs (record { absolute = a; parts = parts })) ≡ true
    → missing_from os fs a parts ≡ []
unfolding missing_from exists
missing_present os fs a [] h = refl
missing_present os fs a (n ∷ parts) h = ground arith

IsRestorable-dirs :
    (os : Os) (fs : Files) (dirs : List FilePath) (q : FilePath)
    → IsRestorable os (lstat fs q)
    → IsRestorable os (lstat (make_dirs os fs dirs).1 q)
IsRestorable-dirs os fs dirs q h = elim (make_dirs-OnlyNewDirs os fs dirs q) [
  | inl e ↦ rw e h
  | inr (_, e) ↦ rw e tt
]

pub Extends-put :
    (saved : Dict Backup Bytes) (name : Backup) (b : Bytes)
    → Dict.get saved name ≡ none
    → Extends saved (Dict.put saved name b)
Extends-put saved name b fresh k c h = ground (arith, get-put saved name k b)

-- The parent of an entry that is no directory is another path, and stays what it is.
pub apart :
    (fs : Files) (p : FilePath)
    → is_dir (lstat fs (parent p)) ≡ true
    → is_dir (lstat fs p) ≢ true
    → p ≢ parent p
apart fs p up h e = h (ap (λ (q : FilePath). is_dir (lstat fs q)) e ∙ up)

pub parent_but :
    (fs fs' : Files) (p : FilePath)
    → SameBut p fs' fs
    → is_dir (lstat fs (parent p)) ≡ true
    → is_dir (lstat fs p) ≢ true
    → has_parent fs' p ≡ true
parent_but fs fs' p but up h = rw (but (parent p) (apart fs p up h)) up

pub same-IsSound :
    (os : Os) (tx tx' : Transaction)
    → IsTree tx.files
    → tx'.journal ≡ tx.journal
    → tx'.files ≡ tx.files
    → Extends tx.saved tx'.saved
    → IsSound os tx tx'
same-IsSound os tx tx' t j f x = record {
  effect = Effect.quiet j (λ q. rw f);
  tree = rw f t;
  extends = x;
  restorable = λ q h. rw f h;
}

module _ (os : Os) (p : FilePath) (tx tx' : Transaction) (r : Record) (saved : Dict Backup Bytes)
    (fs1 : Files) where
  Settled-IsSound :
      Settled os p (tx.journal ++ r ∷ []) saved fs1 tx'
      → Extends tx.saved saved
      → ((later : Dict Backup Bytes)
          → Extends saved later
          → IsPlain (lstat tx'.files p)
          → SameBut p tx'.files fs1
          → IsTree tx'.files
          → Reverts os later r tx'.files tx.files)
      → ((q : FilePath) → IsRestorable os (lstat tx.files q) → IsRestorable os (lstat fs1 q))
      → IsSound os tx tx'
  Settled-IsSound h x back dirs = record {
    effect =
        Effect.logged r h.journal_kept
          (λ later y. back later (rw h.saved_kept at y) h.plain h.but h.tree);
    tree = h.tree;
    extends = rw h.saved_kept x;
    restorable = restore_at;
  }
    where
      restore_at :
          (q : FilePath) → IsRestorable os (lstat tx.files q) → IsRestorable os (lstat tx'.files q)
      restore_at q k = elim (path_eq.dec p q) [
        | yes e ↦ rw (← e) h.own
        | no e ↦ rw (h.but q e) (dirs q k)
      ]

module _ (os : Os) (out : Outside) (fault : Fault) (owners : List ℕ) (p : FilePath) (mode : ℕ)
    (name : String) (content : Bytes) (tx : Transaction) (t : IsTree tx.files)
    (clean : IsClean fault) (staged : Dict.get tx.staged name ≡ some content) where
  abbrev pub dirs_of : List FilePath
  dirs_of = missing os tx.files (parent p)

  pub created-IsSound :
      lstat tx.files p ≡ none
      → AreSafe owners tx.files (parents p)
      → IsSound os tx
          (write_recorded os out fault name p mode none
            (record (blank os out fault publish p) { created = true })
            tx).1
  unfolding write_recorded append_record
  created-IsSound absent safe =
      let (up, short) = safe_parent owners tx.files p t absent safe in
      let (fs1, made, there) =
        dirs_made os owners tx.files (parent p).absolute (parent p).parts t up in
      let (t1, back) = dirs_undone os tx.files (parent p).absolute (parent p).parts fs1 t made in
      let absent1 : lstat fs1 p ≡ none =
        rw made at (make_dirs_beyond os tx.files (parent p).absolute (parent p).parts p short)
        ∙ absent in
      elim (make_some_run os fault (reverse dirs_of) tx.files fs1 clean made) [
        | inl e ↦ rw e (same-IsSound os tx _ t refl refl (λ k b h. h))
        | inr e ↦
            rw (e, staged)
              (Settled-IsSound os p tx _ (created_record p dirs_of (some (out.sha256 content)))
                tx.saved fs1
                (written_out-Settled os p _ tx.saved fs1 out fault content mode none _ (record {
                  journal_kept = refl;
                  saved_kept = refl;
                  but = λ q ne. refl;
                  plain = rw absent1 tt;
                  own = rw absent1 tt;
                  tree = t1;
                }))
                (λ k b h. h)
                (λ later y plain but tree.
                  created-Reverts os p tx.files _ later dirs_of (some (out.sha256 content)) fs1
                    plain absent1 but back)
                (λ q k. rw made at (IsRestorable-dirs os tx.files (reverse dirs_of) q k)))
      ]

module _ (os : Os) (out : Outside) (fault : Fault) (p : FilePath) (b : Bytes)
    (tx : Transaction) where
  abbrev pub backup_name : Backup
  backup_name = record { number = length tx.journal; flat = out.flatten p }

  abbrev pub backed_up : Transaction
  backed_up = record tx { saved = Dict.put tx.saved backup_name b }

  pub save_run :
      (save os out fault p b tx ≡ (raise os_error, tx))
      ⊎ ((Dict.get tx.saved backup_name ≡ none)
          × (save os out fault p b tx ≡ (ok backup_name, backed_up)))
  unfolding save
  save_run = ground arith

  pub replaced-IsSound :
      (m : Meta) (mode : ℕ) (name : String) (content : Bytes)
      → IsTree tx.files
      → Dict.get tx.staged name ≡ some content
      → Dict.get tx.saved backup_name ≡ none
      → lstat tx.files p ≡ some (file b m)
      → IsOwnable os m
      → IsSound os tx
          (write_recorded os out fault name p mode
            (some m)
            (record (blank os out fault publish p) {
              type = some regular;
              meta = some m;
              backup = some backup_name;
            })
            backed_up).1
  unfolding write_recorded append_record
  replaced-IsSound m mode name content t staged fresh was own =
      let up : is_dir (lstat tx.files (parent p)) ≡ true = t.closed p (λ x. cc (x, was)) in
      let none_missing = missing_present os tx.files (parent p).absolute (parent p).parts up in
      let x = Extends-put tx.saved backup_name b fresh in
      elim (make_none_run os fault tx.files) [
        | inl e ↦ rw (none_missing, e) (same-IsSound os tx _ t refl refl x)
        | inr e ↦
            rw (none_missing, e, staged)
              (Settled-IsSound os p tx _
                (replaced_record p m backup_name [] (some (out.sha256 content))) backed_up.saved
                tx.files
                (written_out-Settled os p _ backed_up.saved tx.files out fault content mode (some m)
                  _
                  (record {
                    journal_kept = refl;
                    saved_kept = refl;
                    but = λ q ne. refl;
                    plain = rw was tt;
                    own = rw was own;
                    tree = t;
                  }))
                x
                (λ later y plain but tree.
                  replaced-Reverts os p tx.files _ but later b m backup_name []
                    (some (out.sha256 content)) plain
                    (parent_but tx.files _ p but up
                      (λ (h : is_dir (lstat tx.files p) ≡ true). cc (h, was)))
                    was own (y backup_name b (get-put_self tx.saved backup_name b)))
                (λ q k. k))
      ]
