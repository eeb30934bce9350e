-- ===== src/Console/Books.antt =====
-- The revisions and the pending tasks of the console, mihomoctl/controller/controller_state.py: what
-- each operation does to them, key by key.
use mihomo_userctl.Base.{
  ℕ, ◌≡◌, refl, ap, ◌∙◌, inl, inr, String, Bool, true, false, Option, none, some, [], ◌∷◌, ◌++◌,
  ◌==◌, ◌||◌, is_some, nat_eq, string_eq, contains, length, ltb, Bool-cases, if◌then◌else◌, arith,
}
use mihomo_userctl.Base.Dict
use mihomo_userctl.Base.Dict.{get-put, get-remove}
use mihomo_userctl.Console.{Snapshot, Store, Job, max_jobs}
use mihomo_userctl.Console.Actions
use mihomo_userctl.Console.Actions.{
  Outcome, returned, raised, snapshot_of, put_snapshot, notify, is_current, is_at, next_revision,
  without_pending, or_new,
}

pub same_text : (a b : String) → (a == b) ≡ true → a ≡ b
same_text a b h = ground arith

pub same_self : (a : String) → (a == a) ≡ true
same_self a = ground arith

module _ {V : Type 0} where
  abbrev pub revision_of : Store V → String → ℕ
  revision_of s key = (snapshot_of s key).revision

  abbrev pub pending_of : Store V → String → Option ℕ
  pending_of s key = Dict.get s.pending key

  abbrev pub value_of : Store V → String → Option V
  value_of s key = (snapshot_of s key).value

  snapshot_of-put :
      (s : Store V) (key k : String) (snap : Snapshot V)
      → snapshot_of (put_snapshot key snap s) k ≡ (if key == k then snap else snapshot_of s k)
  snapshot_of-put s key k snap = rw get-put (by_test (key == k))
    where
      by_test :
          (b : Bool)
          → or_new (if b then some snap else Dict.get s.snapshots k)
            ≡ (if b then snap else or_new (Dict.get s.snapshots k))
      by_test true = refl
      by_test false = refl

  -- What an operation on a key leaves there; all other keys keep what they have.
  pub record Changed (key : String) (r : ℕ) (o : Option ℕ) (v : Option V) (s t : Store V)
      : Type 0 where
    pub revision : (k : String) → revision_of t k ≡ (if key == k then r else revision_of s k)
    pub pending : (k : String) → pending_of t k ≡ (if key == k then o else pending_of s k)
    pub value : (k : String) → value_of t k ≡ (if key == k then v else value_of s k)

  abbrev pub Same : Store V → Store V → Type 0
  Same s t =
      (k : String)
      → (revision_of t k ≡ revision_of s k)
        × (pending_of t k ≡ pending_of s k)
        × (value_of t k ≡ value_of s k)

  -- A snapshot at a key, beside any change of what is pending there.
  put-Changed :
      (key : String) (snap : Snapshot V) (o : Option ℕ) (s t : Store V)
      → t.snapshots ≡ Dict.put s.snapshots key snap
      → ((k : String) → pending_of t k ≡ (if key == k then o else pending_of s k))
      → Changed key snap.revision o snap.value s t
  put-Changed key snap o s t e pending = record {
    revision = λ k. by_field (λ x. x.revision) k;
    pending = pending;
    value = λ k. by_field (λ x. x.value) k;
  }
    where
      by_field :
          {A : Type 0} (f : Snapshot V → A) (k : String)
          → f (snapshot_of t k) ≡ (if key == k then f snap else f (snapshot_of s k))
      by_field f k = rw e (ap f (snapshot_of-put s key k snap) ∙ by_test (key == k))
        where
          by_test :
              (b : Bool)
              → f (if b then snap else snapshot_of s k)
                ≡ (if b then f snap else f (snapshot_of s k))
          by_test true = refl
          by_test false = refl

  -- The value that is shown after an outcome, where the old one is kept on an error.
  abbrev pub shown_after : Outcome V → Option V → Option V
  shown_after (returned value) old = value
  shown_after (raised code _ _) old = if code == "" then none else old

  record_outcome-revision :
      (now : ℕ) (o : Outcome V) (snap : Snapshot V)
      → (Actions.record_outcome now o snap).revision ≡ snap.revision
  unfolding Actions.record_outcome
  record_outcome-revision now (returned value) snap = refl
  record_outcome-revision now (raised code _ _) snap = ground arith

  record_outcome-value :
      (now : ℕ) (o : Outcome V) (snap : Snapshot V)
      → (Actions.record_outcome now o snap).value ≡ shown_after o snap.value
  unfolding Actions.record_outcome
  record_outcome-value now (returned value) snap = refl
  record_outcome-value now (raised code _ _) snap = ground arith

  pub submit_refused :
      (key : String) (s : Store V)
      → (s.closed || is_some (pending_of s key)) ≡ true
      → (Actions.submit key s).1 ≡ s
  unfolding Actions.submit
  submit_refused key s e = rw e refl

  pub submit_accepted :
      (key : String) (s : Store V)
      → (s.closed || is_some (pending_of s key)) ≡ false
      → ltb (length s.jobs) max_jobs ≡ true
      → Changed key
          (next_revision s key)
          (some (next_revision s key))
          (value_of s key)
          s
          (Actions.submit key s).1
        × ((Actions.submit key s).1.jobs
            ≡ s.jobs ++ (record { key = key; revision = next_revision s key } ∷ []))
  unfolding Actions.submit
  submit_accepted key s e room =
      simp (e, room)
        (
          put-Changed key _ (some (next_revision s key)) s _ refl (λ k. get-put s.pending key k _),
          refl,
        )

  pub submit_full :
      (key : String) (s : Store V)
      → (s.closed || is_some (pending_of s key)) ≡ false
      → ltb (length s.jobs) max_jobs ≡ false
      → Changed key (next_revision s key) none (value_of s key) s (Actions.submit key s).1
        × ((Actions.submit key s).1.jobs ≡ s.jobs)
  unfolding Actions.submit
  submit_full key s e full =
      simp (e, full) (put-Changed key _ none s _ refl (λ k. get-remove s.pending key k), refl)

  pub invalidate_changes :
      (key : String) (s : Store V)
      → Changed key (next_revision s key) none (value_of s key) s (Actions.invalidate key s)
  unfolding Actions.invalidate
  invalidate_changes key s = put-Changed key _ none s _ refl (λ k. get-remove s.pending key k)

  pub settle_ignored :
      (j : Job) (o : Outcome V) (now : ℕ) (s : Store V)
      → is_current s j ≡ false
      → Actions.settle j o now s ≡ s
  unfolding Actions.settle
  settle_ignored j o now s e = rw (Actions.settle, e) refl

  pub settle_kept :
      (j : Job) (o : Outcome V) (now : ℕ) (s : Store V)
      → is_current s j ≡ true
      → Changed j.key
          (revision_of s j.key)
          none
          (shown_after o (value_of s j.key))
          s
          (Actions.settle j o now s)
        × ((Actions.settle j o now s).jobs ≡ s.jobs)
  unfolding Actions.settle
  settle_kept j o now s e =
      let snap = Actions.record_outcome now o (snapshot_of s j.key) in
      let changed =
        put-Changed j.key snap none s (Actions.settle j o now s) (rw (Actions.settle, e) refl)
          (λ k. rw (Actions.settle, e) (get-remove s.pending j.key k)) in
      let revision = record_outcome-revision now o (snapshot_of s j.key) in
      let value = record_outcome-value now o (snapshot_of s j.key) in
      (
        record {
          revision = λ k. rw (← revision) (changed.revision k);
          pending = changed.pending;
          value = λ k. rw (← value) (changed.value k);
        },
        rw (Actions.settle, e) refl,
      )

  emit_outcome-Changed :
      (key : String) (now : ℕ) (o : Outcome V) (s : Store V)
      → (snap : Snapshot V) × (snap.revision ≡ revision_of s key)
        × (snap.value ≡ shown_after o (value_of s key))
        × ((Actions.emit_outcome key now o s).snapshots ≡ Dict.put s.snapshots key snap)
        × ((Actions.emit_outcome key now o s).pending ≡ s.pending)
        × ((Actions.emit_outcome key now o s).jobs ≡ s.jobs)
  unfolding Actions.emit_outcome
  emit_outcome-Changed key now (returned value) s = (_, refl, refl, refl, refl, refl)
  emit_outcome-Changed key now (raised code _ _) s = elim (Bool-cases (code == "")) [
    | inl e ↦ rw e (_, refl, refl, refl, refl, refl)
    | inr e ↦ rw e (_, refl, refl, refl, refl, refl)
  ]

  keep_pending :
      (s : Store V) (key k : String)
      → pending_of s k ≡ (if key == k then pending_of s key else pending_of s k)
  keep_pending s key k = elim (Bool-cases (key == k)) [
    | inl e ↦ let same = same_text key k e in rw (e, same) refl
    | inr e ↦ rw e refl
  ]

  pub emit_ignored :
      (key : String) (stop : ℕ) (o : Outcome V) (now : ℕ) (s : Store V)
      → (s.closed || contains s.halted stop) ≡ true
      → Actions.emit key stop o now s ≡ s
  unfolding Actions.emit
  emit_ignored key stop o now s e = rw e refl

  pub emit_kept :
      (key : String) (stop : ℕ) (o : Outcome V) (now : ℕ) (s : Store V)
      → (s.closed || contains s.halted stop) ≡ false
      → Changed key
          (revision_of s key)
          (pending_of s key)
          (shown_after o (value_of s key))
          s
          (Actions.emit key stop o now s)
        × ((Actions.emit key stop o now s).jobs ≡ s.jobs)
  unfolding Actions.emit
  emit_kept key stop o now s e =
      let (snap, revision, value, put, pending, jobs) = emit_outcome-Changed key now o s in
      let t = Actions.emit key stop o now s in
      let changed =
        put-Changed key snap (pending_of s key) s t (rw e put)
          (λ k. rw (e, pending) (keep_pending s key k)) in
      (
        record {
          revision = λ k. rw (← revision) (changed.revision k);
          pending = changed.pending;
          value = λ k. rw (← value) (changed.value k);
        },
        rw e jobs,
      )
