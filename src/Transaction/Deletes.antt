-- ===== src/Transaction/Deletes.antt =====
-- What `delete` does to the files, by the record that it adds to the journal.
use mihomo_userctl.Base.{
  ◌≡◌, ◌⊎◌, inl, inr, String, true, false, Option, none, some, [], ◌∷◌, ◌++◌, arith, nat_eq,
  string_eq,
}
use mihomo_userctl.Base.Dict
use mihomo_userctl.Base.Dict.{Dict, get-put_self}
use mihomo_userctl.Files.{
  FilePath, path_eq, Bytes, Meta, Node, file, symlink, Files, Os, lstat, parent, is_dir,
}
use mihomo_userctl.Files.Laws.{IsTree, lstat-remove_self, lstat-remove_ne, remove-IsTree}
use mihomo_userctl.Transaction.{
  delete, regular, link, Backup, Backup_eq, Record, Transaction, Outside, Scope, Fault,
}
use mihomo_userctl.Transaction.Publish.{persist, unlink, blank, append_record, delete_recorded}
use mihomo_userctl.Transaction.Restorable.{IsOwnable, IsRestorable, SameBut, link_meta}
use mihomo_userctl.Transaction.Undo.{
  IsPlain, deleted_record, deleted-Reverts, unlinked-Reverts, IsLinkOrNone,
}
use mihomo_userctl.Transaction.Effects.{
  Effect, IsSound, parent_but, apart, Extends-put, backup_name, backed_up,
}

module _ (os : Os) (out : Outside) (fault : Fault) (s : Scope) (p : FilePath) where
  delete_recorded_run :
      (r : Record) (tx : Transaction)
      → let tx' = (delete_recorded os out fault s p r tx).1 in
        (tx'.journal ≡ tx.journal ++ r ∷ [])
        × (tx'.saved ≡ tx.saved)
        × ((tx'.files ≡ tx.files) ⊎ (tx'.files ≡ Dict.remove tx.files p))
  unfolding append_record persist unlink
  delete_recorded_run r tx = ground arith

-- An entry that is no directory is still there, or gone, and nothing else has changed.
record Removed (os : Os) (p : FilePath) (fs fs' : Files) : Type 0 where
  but : SameBut p fs' fs
  left : (lstat fs' p ≡ lstat fs p) ⊎ (lstat fs' p ≡ none)
  tree : IsTree fs'
  restorable : (q : FilePath) → IsRestorable os (lstat fs q) → IsRestorable os (lstat fs' q)

Removed-facts :
    (os : Os) (p : FilePath) (fs fs' : Files)
    → IsTree fs
    → is_dir (lstat fs p) ≡ false
    → (fs' ≡ fs) ⊎ (fs' ≡ Dict.remove fs p)
    → Removed os p fs fs'
Removed-facts os p fs fs' t nd (inl e) = record {
  but = λ q ne. rw e;
  left = inl (rw e);
  tree = rw e t;
  restorable = λ q h. rw e h;
}
Removed-facts os p fs fs' t nd (inr e) = record {
  but = λ q ne. rw e (lstat-remove_ne fs p q ne);
  left = inr (rw e (lstat-remove_self fs p));
  tree = rw e (remove-IsTree fs p t nd);
  restorable = λ q h. rw e (at q h);
}
  where
    at :
        (q : FilePath) → IsRestorable os (lstat fs q) → IsRestorable os (lstat (Dict.remove fs p) q)
    at q h = elim (path_eq.dec p q) [
      | yes same ↦ rw (← same, lstat-remove_self) tt
      | no other ↦ rw (lstat-remove_ne fs p q other) h
    ]

IsPlain-left :
    (n n' : Option Node) (b : Bytes) (m : Meta)
    → n ≡ some (file b m)
    → (n' ≡ n) ⊎ (n' ≡ none)
    → IsPlain n'
IsPlain-left n n' b m e (inl h) = rw (h, e) tt
IsPlain-left n n' b m e (inr h) = rw h tt

link_left :
    (n n' : Option Node) (t : String) (m : Meta)
    → n ≡ some (symlink t m)
    → (n' ≡ n) ⊎ (n' ≡ none)
    → IsLinkOrNone n'
link_left n n' t m e (inl h) = rw (h, e) tt
link_left n n' t m e (inr h) = rw h tt

module _ (os : Os) (out : Outside) (fault : Fault) (s : Scope) (p : FilePath) (tx : Transaction)
    (t : IsTree tx.files) where
  pub deleted-IsSound :
      (b : Bytes) (m : Meta)
      → Dict.get tx.saved (backup_name os out fault p b tx) ≡ none
      → lstat tx.files p ≡ some (file b m)
      → IsOwnable os m
      → IsSound os tx
          (delete_recorded os out fault s p
            (record (blank os out fault delete p) {
              type = some regular;
              meta = some m;
              backup = some (backup_name os out fault p b tx);
            })
            (backed_up os out fault p b tx)).1
  deleted-IsSound b m fresh was own =
      let name = backup_name os out fault p b tx in
      let r = deleted_record p regular none m name in
      let tx' = (delete_recorded os out fault s p r (backed_up os out fault p b tx)).1 in
      let (j, sv, f) = delete_recorded_run os out fault s p r (backed_up os out fault p b tx) in
      let nd : is_dir (lstat tx.files p) ≡ false = rw was in
      let up : is_dir (lstat tx.files (parent p)) ≡ true = t.closed p (λ x. cc (x, was)) in
      let k = Removed-facts os p tx.files tx'.files t nd f in
      record {
        effect = Effect.logged r j (λ later y.
            deleted-Reverts os p tx.files tx'.files k.but later b m name
              (IsPlain-left _ _ b m was k.left)
              (parent_but tx.files tx'.files p k.but up (λ h. cc (h, nd))) was own
              (y name b (rw sv (get-put_self tx.saved name b))));
        tree = k.tree;
        extends = rw sv (Extends-put tx.saved name b fresh);
        restorable = k.restorable;
      }

  pub unlinked-IsSound :
      (l : String) (m : Meta) (name : Backup)
      → lstat tx.files p ≡ some (symlink l m)
      → m ≡ link_meta os
      → IsSound os tx
          (delete_recorded os out fault s p
            (record (blank os out fault delete p) {
              type = some link;
              symlink_target = some l;
              meta = some m;
              backup = some name;
            })
            tx).1
  unlinked-IsSound l m name was own =
      let r = deleted_record p link (some l) m name in
      let tx' = (delete_recorded os out fault s p r tx).1 in
      let (j, sv, f) = delete_recorded_run os out fault s p r tx in
      let nd : is_dir (lstat tx.files p) ≡ false = rw was in
      let up : is_dir (lstat tx.files (parent p)) ≡ true = t.closed p (λ x. cc (x, was)) in
      let k = Removed-facts os p tx.files tx'.files t nd f in
      record {
        effect = Effect.logged r j (λ later y.
            unlinked-Reverts os p tx.files tx'.files later l m name k.but
              (apart tx.files p up (λ h. cc (h, nd))) (link_left _ _ l m was k.left)
              (parent_but tx.files tx'.files p k.but up (λ h. cc (h, nd))) was own);
        tree = k.tree;
        extends = rw sv (λ k b h. h);
        restorable = k.restorable;
      }
