-- ===== src/Console/Shown.antt =====
-- What the operations of mihomoctl/controller/controller_state.py do to the cell of a key,
-- Console/Cells.antt.
use mihomo_userctl.Base.{
  ℕ, ◌≡◌, refl, sym, ap, ◌∙◌, inl, inr, String, Bool, true, false, not, Option, none, some, List,
  ◌∷◌, ◌==◌, ◌||◌, ◌&&◌, is_some, nat_eq, string_eq, contains, length, ltb, or_false, and_true,
  not-true, Bool-cases, if◌then◌else◌,
}
use mihomo_userctl.Console.{Job, max_jobs}
use mihomo_userctl.Console.Actions
use mihomo_userctl.Console.Actions.{Outcome, is_current, is_at, or_new}
use mihomo_userctl.Console.Schedule.{System, submit, invalidate, on_store, settle_job, emit_from}
use mihomo_userctl.Console.Cells.{
  Cell, Request, idle, ask, refuse, answer, revisions_at, cell, serve, answer_of, fill_of, request,
}
use mihomo_userctl.Console.Books.{
  revision_of, pending_of, value_of, Changed, submit_refused, submit_accepted, submit_full,
  invalidate_changes, settle_ignored, settle_kept, same_text, same_self, emit_ignored, emit_kept,
}

module _ {V : Type 0} where
  pub cell_eq :
      {c d : Cell V}
      → c.version ≡ d.version
      → c.awaited ≡ d.awaited
      → c.value ≡ d.value
      → c.answered ≡ d.answered
      → c ≡ d
  cell_eq {c} {d} e f g h = cc

  -- The view of a key after an operation that is described key by key.
  Changed-cell :
      (s t : System V) (name key : String) {r : ℕ} {o : Option ℕ} {v : Option V} (b : Bool)
      → (name == key) ≡ b
      → Changed name r o v s.store t.store
      → t.kept ≡ s.kept
      → cell t key ≡ (
          if b
          then record { version = r; awaited = o; value = v; answered = revisions_at key s.kept }
          else cell s key)
  Changed-cell s t name key true e c k =
      cell_eq (c.revision key ∙ rw e refl) (c.pending key ∙ rw e refl) (c.value key ∙ rw e refl)
        (ap (revisions_at key) k)
  Changed-cell s t name key false e c k =
      cell_eq (c.revision key ∙ rw e refl) (c.pending key ∙ rw e refl) (c.value key ∙ rw e refl)
        (ap (revisions_at key) k)

  own_cell :
      (s t : System V) (key : String) {r : ℕ} {o : Option ℕ} {v : Option V} {rs : List ℕ}
      → Changed key r o v s.store t.store
      → revisions_at key t.kept ≡ rs
      → cell t key ≡ record { version = r; awaited = o; value = v; answered = rs }
  own_cell s t key c k =
      cell_eq (c.revision key ∙ rw (same_self key) refl) (c.pending key ∙ rw (same_self key) refl)
        (c.value key ∙ rw (same_self key) refl) k

  -- A store that did not change.
  kept_cell :
      (s t : System V) (key : String)
      → t.store ≡ s.store
      → t.kept ≡ s.kept
      → cell t key ≡ cell s key
  kept_cell s t key e k =
      cell_eq (ap (λ x. revision_of x key) e) (ap (λ x. pending_of x key) e)
        (ap (λ x. value_of x key) e) (ap (revisions_at key) k)

  abbrev asked : Bool → Bool → Request V
  asked closed room = if closed then idle else if room then ask else refuse

  serve-refused :
      (c : Cell V) (closed room : Bool)
      → (closed || is_some c.awaited) ≡ true
      → serve (asked closed room) c ≡ c
  unfolding serve
  serve-refused c true room e = refl
  serve-refused c false true e = rw e refl
  serve-refused c false false e = rw e refl

  -- What `submit` does to its own key.
  submit-own :
      (s : System V) (key : String)
      → cell (on_store (λ t. (Actions.submit key t).1) s) key
        ≡ serve (asked s.store.closed (ltb (length s.store.jobs) max_jobs)) (cell s key)
  unfolding serve
  submit-own s key = elim (Bool-cases (s.store.closed || is_some (pending_of s.store key))) [
    | inl e ↦
        kept_cell s (on_store (λ t. (Actions.submit key t).1) s) key (submit_refused key s.store e)
          refl
        ∙ sym (serve-refused (cell s key) s.store.closed (ltb (length s.store.jobs) max_jobs) e)
    | inr e ↦
        let (not_closed, free) = or_false s.store.closed (is_some (pending_of s.store key)) e in
        elim (Bool-cases (ltb (length s.store.jobs) max_jobs)) [
          | inl room ↦
              Changed-cell s (on_store (λ t. (Actions.submit key t).1) s) key key true
                (same_self key) (submit_accepted key s.store e room).0 refl
              ∙ simp (not_closed, room, free) refl
          | inr full ↦
              Changed-cell s (on_store (λ t. (Actions.submit key t).1) s) key key true
                (same_self key) (submit_full key s.store e full).0 refl
              ∙ simp (not_closed, full, free) refl
        ]
  ]

  submit-elsewhere :
      (s : System V) (name key : String)
      → (name == key) ≡ false
      → cell (on_store (λ t. (Actions.submit name t).1) s) key ≡ cell s key
  submit-elsewhere s name key e =
      let t = on_store (λ t. (Actions.submit name t).1) s in
      elim (Bool-cases (s.store.closed || is_some (pending_of s.store name))) [
        | inl f ↦ kept_cell s t key (submit_refused name s.store f) refl
        | inr f ↦ elim (Bool-cases (ltb (length s.store.jobs) max_jobs)) [
          | inl room ↦
              Changed-cell s t name key false e (submit_accepted name s.store f room).0 refl
          | inr full ↦ Changed-cell s t name key false e (submit_full name s.store f full).0 refl
        ]
      ]

  pub submit-cell :
      (s : System V) (name key : String)
      → cell (on_store (λ t. (Actions.submit name t).1) s) key
        ≡ serve (request (submit name) s key) (cell s key)
  unfolding request serve
  submit-cell s name key = elim (Bool-cases (name == key)) [
    | inl e ↦ rw (same_text name key e) (submit-own s key ∙ simp (same_self key) refl)
    | inr e ↦ submit-elsewhere s name key e ∙ simp e refl
  ]

  pub invalidate-cell :
      (s : System V) (name key : String)
      → cell (on_store (Actions.invalidate name) s) key
        ≡ serve (request (invalidate name) s key) (cell s key)
  unfolding request serve
  invalidate-cell s name key = elim (Bool-cases (name == key)) [
    | inl e ↦
        Changed-cell s (on_store (Actions.invalidate name) s) name key true e
          (invalidate_changes name s.store) refl
        ∙ simp (same_text name key e, same_self key) refl
    | inr e ↦
        Changed-cell s (on_store (Actions.invalidate name) s) name key false e
          (invalidate_changes name s.store) refl
        ∙ simp e refl
  ]

  serve-ignored :
      (c : Cell V) (closed : Bool) (r : ℕ) (o : Outcome V)
      → (not closed && is_at c.awaited r) ≡ false
      → serve (if closed then idle else answer r o) c ≡ c
  unfolding serve
  serve-ignored c true r o e = refl
  serve-ignored c false r o e = rw e refl

  -- A task that ends: whether its result counts is decided as for the cell of its key.
  settled-own :
      (s : System V) (i : ℕ) (j : Job) (o : Outcome V) (now : ℕ)
      → cell (settle_job i (some j) o now s) j.key
        ≡ serve (if s.store.closed then idle else answer j.revision o) (cell s j.key)
  unfolding serve
  settled-own s i j o now = elim (Bool-cases (is_current s.store j)) [
    | inl e ↦
        let (changed, _) = settle_kept j o now s.store e in
        let (not_closed, wanted) =
          and_true (not s.store.closed) (is_at (pending_of s.store j.key) j.revision) e in
        own_cell s (settle_job i (some j) o now s) j.key
          {rs = j.revision ∷ revisions_at j.key s.kept} changed (rw (e, same_self j.key) refl)
        ∙ simp (not-true _ not_closed, wanted) refl
    | inr e ↦
        kept_cell s (settle_job i (some j) o now s) j.key (settle_ignored j o now s.store e)
          (rw e refl)
        ∙ sym (serve-ignored (cell s j.key) s.store.closed j.revision o e)
  ]

  settled-elsewhere :
      (s : System V) (i : ℕ) (j : Job) (o : Outcome V) (now : ℕ) (key : String)
      → (j.key == key) ≡ false
      → cell (settle_job i (some j) o now s) key ≡ cell s key
  settled-elsewhere s i j o now key e = elim (Bool-cases (is_current s.store j)) [
    | inl f ↦
        let (changed, _) = settle_kept j o now s.store f in
        let revision = changed.revision key in
        let pending = changed.pending key in
        let value = changed.value key in
        cell_eq (revision ∙ rw e refl) (pending ∙ rw e refl) (value ∙ rw e refl) (rw (f, e) refl)
    | inr f ↦
        kept_cell s (settle_job i (some j) o now s) key (settle_ignored j o now s.store f)
          (rw f refl)
  ]

  pub settle-cell :
      (s : System V) (i : ℕ) (p : Option Job) (o : Outcome V) (now : ℕ) (key : String)
      → cell (settle_job i p o now s) key ≡ serve (answer_of key s.store.closed p o) (cell s key)
  unfolding serve
  settle-cell s i none o now key = refl
  settle-cell s i (some j) o now key = elim (Bool-cases (j.key == key)) [
    | inl e ↦
        let same = same_text j.key key e in
        rw (← same) (settled-own s i j o now ∙ simp (same_self j.key) refl)
    | inr e ↦ settled-elsewhere s i j o now key e ∙ simp e refl
  ]

  pub emit-cell :
      (s : System V) (p : Option (String × ℕ)) (o : Outcome V) (now : ℕ) (key : String)
      → cell (emit_from p o now s) key ≡ serve (fill_of key s.store p o) (cell s key)
  unfolding serve
  emit-cell s none o now key = refl
  emit-cell s (some (name, stop)) o now key =
      let t = on_store (Actions.emit name stop o now) s in
      elim (Bool-cases (s.store.closed || contains s.store.halted stop)) [
        | inl f ↦
            kept_cell s t key (emit_ignored name stop o now s.store f) refl
            ∙ sym (fill-ignored name stop f)
        | inr f ↦ elim (Bool-cases (name == key)) [
          | inl e ↦
              Changed-cell s t name key true e (emit_kept name stop o now s.store f).0 refl
              ∙ simp (f, same_text name key e, same_self key) refl
          | inr e ↦
              Changed-cell s t name key false e (emit_kept name stop o now s.store f).0 refl
              ∙ simp e refl
        ]
      ]
    where
      fill-ignored :
          (name : String) (stop : ℕ)
          → (s.store.closed || contains s.store.halted stop) ≡ true
          → serve (fill_of key s.store (some (name, stop)) o) (cell s key) ≡ cell s key
      fill-ignored name stop f = elim (Bool-cases (name == key)) [
        | inl e ↦ simp (e, f) refl
        | inr e ↦ simp e refl
      ]
