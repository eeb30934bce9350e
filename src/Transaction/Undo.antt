-- ===== src/Transaction/Undo.antt =====
-- `rollback` of a single journal record.
use mihomo_userctl.Base.{
  ◌≡◌, ◌≢◌, refl, sym, ◌∙◌, ap, String, true, false, Option, none, some, List, [], nat_eq, ok,
}
use mihomo_userctl.Base.Dict
use mihomo_userctl.Base.Dict.{Dict}
use mihomo_userctl.Files.{
  FilePath, path_eq, Bytes, Meta, Node, file, symlink, dir, special, Files, Os, lstat, parent,
  is_dir, is_symlink, has_parent,
}
use mihomo_userctl.Files.Laws.{
  Same, lstat-put_self, lstat-put_ne, lstat-remove_self, lstat-remove_ne,
}
use mihomo_userctl.Transaction.{publish, delete, FileType, regular, link, Backup, Backup_eq, Record}
use mihomo_userctl.Transaction.Publish.{unlink}
use mihomo_userctl.Transaction.Rollback.{restore_file, clear, undo, unlink_present}
use mihomo_userctl.Transaction.Directories.{Undoes}
use mihomo_userctl.Transaction.Restorable.{
  IsOwnable, link_meta, SameBut, Same-of_but, atomic_write_ok, give_back_ok, make_link_ok,
}

-- A later set of backups still holds what an earlier one held.
abbrev pub Extends : Dict Backup Bytes → Dict Backup Bytes → Type 0
Extends saved saved' =
    (k : Backup) (b : Bytes) → Dict.get saved k ≡ some b → Dict.get saved' k ≡ some b

-- The records that `publish` and `delete` write.
abbrev pub created_record : FilePath → List FilePath → Option String → Record
created_record p dirs sha = record {
  op = publish;
  path = p;
  type = none;
  symlink_target = none;
  meta = none;
  backup = none;
  created = true;
  created_dirs = dirs;
  published_sha256 = sha;
}

abbrev pub replaced_record : FilePath → Meta → Backup → List FilePath → Option String → Record
replaced_record p m name dirs sha = record {
  op = publish;
  path = p;
  type = some regular;
  symlink_target = none;
  meta = some m;
  backup = some name;
  created = false;
  created_dirs = dirs;
  published_sha256 = sha;
}

abbrev pub deleted_record : FilePath → FileType → Option String → Meta → Backup → Record
deleted_record p type target m name = record {
  op = delete;
  path = p;
  type = some type;
  symlink_target = target;
  meta = some m;
  backup = some name;
  created = false;
  created_dirs = [];
  published_sha256 = none;
}

-- `rollback` of the record leads from any file system like `after` to one like `before`.
abbrev pub Reverts : Os → Dict Backup Bytes → Record → Files → Files → Type 0
Reverts os saved r after before =
    (g : Files) → Same g after → ((undo os saved r g).0 ≡ ok tt) × Same (undo os saved r g).1 before

-- The entry that an operation leaves at its path is a file of any content, or none.
abbrev pub IsPlain : Option Node → Type 0
IsPlain none = Unit
IsPlain (some (file _ _)) = Unit
IsPlain (some _) = ⊥

pub not_link : (n : Option Node) → IsPlain n → is_symlink n ≡ false
not_link none h = refl
not_link (some (file _ _)) h = refl
not_link (some (dir _)) h = refl
not_link (some (special _)) h = refl
not_link (some (symlink _ _)) h = absurd h

pub not_dir : (n : Option Node) → IsPlain n → is_dir n ≡ false
not_dir none h = refl
not_dir (some (file _ _)) h = refl
not_dir (some (symlink _ _)) h = refl
not_dir (some (special _)) h = refl
not_dir (some (dir _)) h = absurd h

-- A plain entry is cleared.
clear_ok :
    (p : FilePath) (g : Files) (n : Option Node)
    → lstat g p ≡ n
    → IsPlain n
    → (g' : Files) × (clear p g ≡ (ok tt, g')) × (lstat g' p ≡ none) × SameBut p g' g
unfolding clear unlink
clear_ok p g none e h = (g, rw (e, clear), e, λ q ne. refl)
clear_ok p g (some (file b m)) e h = (
  Dict.remove g p,
  rw (e, clear, unlink, e),
  lstat-remove_self g p,
  λ q ne. lstat-remove_ne g p q ne,
)
clear_ok p g (some (symlink _ _)) e h = absurd h
clear_ok p g (some (dir _)) e h = absurd h
clear_ok p g (some (special _)) e h = absurd h

module _ (os : Os) (p : FilePath) (before after : Files) (but : SameBut p after before) where
  restore_file_ok :
      (saved : Dict Backup Bytes) (r : Record) (g : Files) (b : Bytes) (m : Meta) (name : Backup)
      → Same g after
      → IsPlain (lstat after p)
      → has_parent after p ≡ true
      → lstat before p ≡ some (file b m)
      → IsOwnable os m
      → Dict.get saved name ≡ some b
      → (g' : Files) × (restore_file os saved
            (record r { path = p; meta = some m; backup = some name })
            g
          ≡ (ok tt, g'))
        × Same g' before
  unfolding restore_file
  restore_file_ok saved r g b m name same plain up was own kept =
      let (g', e, here, others) = give_back_ok os p g b m own in
      let up' : has_parent g p ≡ true = ap is_dir (same (parent p)) ∙ up in
      let link' : is_symlink (lstat g p) ≡ false =
        ap is_symlink (same p) ∙ not_link (lstat after p) plain in
      let dir' : is_dir (lstat g p) ≡ false = ap is_dir (same p) ∙ not_dir (lstat after p) plain in
      (
        g',
        rw (kept, restore_file, atomic_write_ok os p g b m.mode up' link' dir') e,
        Same-of_but p g' before (λ q ne. others q ne ∙ same q ∙ but q ne) (here ∙ sym was),
      )

  -- A publication over a file.
  pub replaced-Reverts :
      (saved : Dict Backup Bytes) (b : Bytes) (m : Meta) (name : Backup) (dirs : List FilePath)
      (sha : Option String)
      → IsPlain (lstat after p)
      → has_parent after p ≡ true
      → lstat before p ≡ some (file b m)
      → IsOwnable os m
      → Dict.get saved name ≡ some b
      → Reverts os saved (replaced_record p m name dirs sha) after before
  unfolding undo
  replaced-Reverts saved b m name dirs sha plain up was own kept g same =
      let r = replaced_record p m name dirs sha in
      let (g', e, back) = restore_file_ok saved r g b m name same plain up was own kept in
      rw (kept, e) (refl, back)

  -- A deletion of a file.
  pub deleted-Reverts :
      (saved : Dict Backup Bytes) (b : Bytes) (m : Meta) (name : Backup)
      → IsPlain (lstat after p)
      → has_parent after p ≡ true
      → lstat before p ≡ some (file b m)
      → IsOwnable os m
      → Dict.get saved name ≡ some b
      → Reverts os saved (deleted_record p regular none m name) after before
  unfolding undo
  deleted-Reverts saved b m name plain up was own kept g same =
      let r = deleted_record p regular none m name in
      let (g', e, back) = restore_file_ok saved r g b m name same plain up was own kept in
      rw e (refl, back)

-- A publication of a new file, or one that was journalled and not made.
pub created-Reverts :
    (os : Os) (p : FilePath) (before after : Files) (saved : Dict Backup Bytes)
    (dirs : List FilePath) (sha : Option String) (middle : Files)
    → IsPlain (lstat after p)
    → lstat middle p ≡ none
    → SameBut p after middle
    → Undoes os dirs middle before
    → Reverts os saved (created_record p dirs sha) after before
unfolding undo
created-Reverts os p before after saved dirs sha middle plain absent same_but back g same =
    let (g', e, none_left, others) = clear_ok p g (lstat after p) (same p) plain in
    rw e (
      back g' (
        Same-of_but p g' middle (λ q ne. others q ne ∙ same q ∙ same_but q ne)
          (none_left ∙ sym absent)))

-- A symbolic link or nothing.
abbrev pub IsLinkOrNone : Option Node → Type 0
IsLinkOrNone none = Unit
IsLinkOrNone (some (symlink _ _)) = Unit
IsLinkOrNone (some _) = ⊥

unlink_present_ok :
    (p : FilePath) (g : Files) (n : Option Node)
    → lstat g p ≡ n
    → IsLinkOrNone n
    → (g' : Files) × (unlink_present p g ≡ (ok tt, g')) × (lstat g' p ≡ none) × SameBut p g' g
unfolding unlink
unlink_present_ok p g none e h = (g, rw e, e, λ q ne. refl)
unlink_present_ok p g (some (symlink t m)) e h =
    (Dict.remove g p, rw (e, unlink), lstat-remove_self g p, λ q ne. lstat-remove_ne g p q ne)
unlink_present_ok p g (some (file _ _)) e h = absurd h
unlink_present_ok p g (some (dir _)) e h = absurd h
unlink_present_ok p g (some (special _)) e h = absurd h

-- A deletion of a symbolic link, or one that was journalled and not made.
pub unlinked-Reverts :
    (os : Os) (p : FilePath) (before after : Files) (saved : Dict Backup Bytes) (t : String)
    (m : Meta) (name : Backup)
    → SameBut p after before
    → p ≢ parent p
    → IsLinkOrNone (lstat after p)
    → has_parent after p ≡ true
    → lstat before p ≡ some (symlink t m)
    → m ≡ link_meta os
    → Reverts os saved (deleted_record p link (some t) m name) after before
unfolding undo
unlinked-Reverts os p before after saved t m name but apart h up was own g same =
    let (g', e, absent, others) = unlink_present_ok p g (lstat after p) (same p) h in
    let up' : has_parent g' p ≡ true = ap is_dir (others (parent p) apart ∙ same (parent p)) ∙ up in
    rw (e, make_link_ok os p g' t absent up')
      (
        refl,
        Same-of_but p _ before (λ q ne. lstat-put_ne g' p q _ ne ∙ others q ne ∙ same q ∙ but q ne)
            (lstat-put_self g' p _ ∙ ap (λ (k : Meta). some (symlink t k)) (sym own) ∙ sym was),
      )
