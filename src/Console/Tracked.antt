-- ===== src/Console/Tracked.antt =====
-- The tasks that the console of mihomoctl/controller/controller_state.py waits for are in its queue or
-- with a worker.
use mihomo_userctl.Base.{
  ℕ, ◌≡◌, refl, sym, ap, ◌∙◌, inl, inr, String, Bool, true, false, not, Option, none, some, List,
  [], ◌∷◌, ◌++◌, ◌==◌, ◌||◌, is_some, nat_eq, string_eq, contains, length, ltb, and_true, get_elem?,
  Bool-cases, arith,
}
use mihomo_userctl.Base.Dict
use mihomo_userctl.Console.{Store, Job, Probe, max_jobs}
use mihomo_userctl.Console.Actions
use mihomo_userctl.Console.Actions.{Outcome, is_current, is_at, next_revision}
use mihomo_userctl.Console.Schedule.{System, on_store, settle_job}
use mihomo_userctl.Console.Books.{
  pending_of, Changed, same_text, submit_refused, submit_accepted, submit_full, settle_ignored,
  settle_kept,
}
use mihomo_userctl.Console.Tasks.{
  is_task, has_task, or_left, or_right, or_more, is_same, has_task-append, has_task-erase_at,
}

module _ {V : Type 0} where
  abbrev pub at_work : String → ℕ → System V → Bool
  at_work key r s = has_task key r s.store.jobs || has_task key r s.running

  pub record IsTracked (s : System V) : Type 0 where
    pub working :
        (key : String) (r : ℕ)
        → s.store.closed ≡ false
        → pending_of s.store key ≡ some r
        → at_work key r s ≡ true
    pub closing : s.store.stopped ≡ true → s.store.closed ≡ true

  -- What keeps the tasks tracked.
  pub still-IsTracked :
      (s t : System V)
      → ((key : String) (r : ℕ)
          → t.store.closed ≡ false
          → pending_of t.store key ≡ some r
          → (s.store.closed ≡ false)
            × (pending_of s.store key ≡ some r)
            × (at_work key r s ≡ true → at_work key r t ≡ true))
      → (t.store.stopped ≡ true → t.store.closed ≡ true)
      → IsTracked s
      → IsTracked t
  still-IsTracked s t waits closing h = record {
    working = λ key r not_closed wanted.
        let (open_before, wanted_before, still) = waits key r not_closed wanted in
        still (h.working key r open_before wanted_before);
    closing = closing;
  }

  pub same-IsTracked :
      (s t : System V)
      → t.store.pending ≡ s.store.pending
      → t.store.jobs ≡ s.store.jobs
      → t.store.closed ≡ s.store.closed
      → t.store.stopped ≡ s.store.stopped
      → t.running ≡ s.running
      → IsTracked s
      → IsTracked t
  same-IsTracked s t p j c st r h =
      still-IsTracked s t
        (λ key n not_closed wanted.
          (sym c ∙ not_closed, ap (λ d. Dict.get d key) (sym p) ∙ wanted, λ w. rw (j, r) w))
        (λ e. c ∙ h.closing (sym st ∙ e)) h

  abbrev pub SameFlags : (f : Store V → Store V) (s : Store V) → Type 0
  SameFlags f s = ((f s).closed ≡ s.closed) × ((f s).stopped ≡ s.stopped)

  pub submit-flags : (key : String) (s : Store V) → SameFlags (λ t. (Actions.submit key t).1) s
  unfolding Actions.submit
  submit-flags key s = elim (Bool-cases (s.closed || is_some (pending_of s key))) [
    | inl e ↦ rw e (refl, refl)
    | inr e ↦ elim (Bool-cases (ltb (length s.jobs) max_jobs)) [
      | inl f ↦ simp (e, f) (refl, refl)
      | inr f ↦ simp (e, f) (refl, refl)
    ]
  ]

  pub settle-flags :
      (j : Job) (o : Outcome V) (now : ℕ) (s : Store V) → SameFlags (Actions.settle j o now) s
  unfolding Actions.settle
  settle-flags j o now s = elim (Bool-cases (is_current s j)) [
    | inl e ↦ rw (Actions.settle, e) (refl, refl)
    | inr e ↦ rw (Actions.settle, e) (refl, refl)
  ]

  -- An operation on something else than tasks.
  abbrev pub SameTasks : Store V → Store V → Type 0
  SameTasks s t =
      (t.pending ≡ s.pending) × (t.jobs ≡ s.jobs) × (t.closed ≡ s.closed) × (t.stopped ≡ s.stopped)

  emit_outcome-SameTasks :
      (key : String) (now : ℕ) (o : Outcome V) (s : Store V)
      → SameTasks s (Actions.emit_outcome key now o s)
  unfolding Actions.emit_outcome
  emit_outcome-SameTasks key now (Actions.returned v) s = (refl, refl, refl, refl)
  emit_outcome-SameTasks key now (Actions.raised code d st) s = elim (Bool-cases (code == "")) [
    | inl e ↦ rw e (refl, refl, refl, refl)
    | inr e ↦ rw e (refl, refl, refl, refl)
  ]

  pub emit-SameTasks :
      (key : String) (stop : ℕ) (o : Outcome V) (now : ℕ) (s : Store V)
      → SameTasks s (Actions.emit key stop o now s)
  unfolding Actions.emit
  emit-SameTasks key stop o now s = elim (Bool-cases (s.closed || contains s.halted stop)) [
    | inl e ↦ rw e (refl, refl, refl, refl)
    | inr e ↦ rw e (emit_outcome-SameTasks key now o s)
  ]

  pub probe-SameTasks :
      (digest : List (Option String) → String) (generation : ℕ) (p : Probe V) (s : Store V)
      → SameTasks s (Actions.probe_result digest generation p s)
  unfolding Actions.probe_result
  probe-SameTasks digest generation p s =
      elim (Bool-cases (s.closed || not s.probe_open || not (generation == s.probe_generation))) [
        | inl e ↦ rw e (refl, refl, refl, refl)
        | inr e ↦ rw e (refl, refl, refl, refl)
      ]

  pub on_store-IsTracked :
      (f : Store V → Store V) (s : System V)
      → SameTasks s.store (f s.store)
      → IsTracked s
      → IsTracked (on_store f s)
  on_store-IsTracked f s (p, j, c, st) h = same-IsTracked s (on_store f s) p j c st refl h

  pending_there :
      {name : String} {r : ℕ} {o : Option ℕ} {v : Option V} {s t : Store V} (key : String)
      → Changed name r o v s t
      → (name == key) ≡ true
      → pending_of t key ≡ o
  pending_there key changed e = changed.pending key ∙ rw e refl

  pending_elsewhere :
      {name : String} {r : ℕ} {o : Option ℕ} {v : Option V} {s t : Store V} (key : String)
      → Changed name r o v s t
      → (name == key) ≡ false
      → pending_of t key ≡ pending_of s key
  pending_elsewhere key changed e = changed.pending key ∙ rw e refl

  -- A key that is still pending is not the one that was taken off.
  forgotten :
      {name : String} {r : ℕ} {v : Option V} {s t : Store V} (key : String) (n : ℕ)
      → Changed name r none v s t
      → pending_of t key ≡ some n
      → ((name == key) ≡ false) × (pending_of s key ≡ some n)
  forgotten {name} {s = s} key n changed wanted = elim (Bool-cases (name == key)) [
    | inl e ↦ let gone : none ≡ some n = sym (pending_there key changed e) ∙ wanted in cc
    | inr e ↦ (e, sym (pending_elsewhere key changed e) ∙ wanted)
  ]

  pub forgotten-IsTracked :
      (name : String) (s t : System V) {r : ℕ} {v : Option V}
      → Changed name r none v s.store t.store
      → t.store.jobs ≡ s.store.jobs
      → t.running ≡ s.running
      → t.store.closed ≡ s.store.closed
      → t.store.stopped ≡ s.store.stopped
      → IsTracked s
      → IsTracked t
  forgotten-IsTracked name s t changed jobs running c st h =
      still-IsTracked s t
        (λ key n not_closed wanted.
          let (_, before) = forgotten key n changed wanted in
          (sym c ∙ not_closed, before, λ w. rw (jobs, running) w))
        (λ e. c ∙ h.closing (sym st ∙ e)) h

  accepted-IsTracked :
      (key : String) (s t : System V) {v : Option V}
      → Changed key (next_revision s.store key) (some (next_revision s.store key)) v s.store t.store
      → t.store.jobs
        ≡ s.store.jobs ++ (record { key = key; revision = next_revision s.store key } ∷ [])
      → t.running ≡ s.running
      → t.store.closed ≡ s.store.closed
      → t.store.stopped ≡ s.store.stopped
      → IsTracked s
      → IsTracked t
  unfolding has_task
  accepted-IsTracked key s t changed jobs running c st h = record {
    working = λ k n not_closed wanted. elim (Bool-cases (key == k)) [
      | inl e ↦
          let mine : some (next_revision s.store key) ≡ some n =
            sym (pending_there k changed e) ∙ wanted in
          let same : (next_revision s.store key == n) ≡ true = ground arith in
          let last : List Job = record { key = key; revision = next_revision s.store key } ∷ [] in
          rw jobs (
            or_left _ _ (
              has_task-append k n s.store.jobs last
              ∙ or_right _ (has_task k n last) (simp (e, same) refl)))
      | inr e ↦
          let before : pending_of s.store k ≡ some n =
            sym (pending_elsewhere k changed e) ∙ wanted in
          rw (jobs, running)
            (or_more _ _ _ _ (has_task-append k n s.store.jobs _)
              (h.working k n (sym c ∙ not_closed) before))
    ];
    closing = λ e. c ∙ h.closing (sym st ∙ e);
  }

  pub submit-IsTracked :
      (key : String) (s : System V)
      → IsTracked s
      → IsTracked (on_store (λ t. (Actions.submit key t).1) s)
  submit-IsTracked key s h =
      let t = on_store (λ t. (Actions.submit key t).1) s in
      let (closed, stopped) = submit-flags key s.store in
      elim (Bool-cases (s.store.closed || is_some (pending_of s.store key))) [
        | inl e ↦
            let same = submit_refused key s.store e in
            same-IsTracked s t (ap (λ x. x.pending) same) (ap (λ x. x.jobs) same) closed stopped
              refl h
        | inr e ↦ elim (Bool-cases (ltb (length s.store.jobs) max_jobs)) [
          | inl room ↦
              let (changed, jobs) = submit_accepted key s.store e room in
              accepted-IsTracked key s t changed jobs refl closed stopped h
          | inr full ↦
              let (changed, jobs) = submit_full key s.store e full in
              forgotten-IsTracked key s t changed jobs refl closed stopped h
        ]
      ]

  -- A task whose result does not count is not the one that its key waits for.
  unwanted :
      (s : Store V) (j : Job) (key : String) (n : ℕ)
      → is_current s j ≡ false
      → s.closed ≡ false
      → pending_of s key ≡ some n
      → is_task key n j ≡ false
  unwanted s j key n e not_closed wanted = elim (Bool-cases (is_task key n j)) [
    | inl f ↦
        let (name, revision) = and_true (j.key == key) (j.revision == n) f in
        let current : is_current s j ≡ true =
          simp (not_closed, same_text j.key key name, wanted) (is_same j.revision n revision) in
        cc
    | inr f ↦ f
  ]

  pub settle_job-IsTracked :
      (i : ℕ) (p : Option Job) (o : Outcome V) (now : ℕ) (s : System V)
      → get_elem? s.running i ≡ p
      → IsTracked s
      → IsTracked (settle_job i p o now s)
  settle_job-IsTracked i none o now s at h = h
  settle_job-IsTracked i (some j) o now s at h =
      let t = settle_job i (some j) o now s in
      let (closed, stopped) = settle-flags j o now s.store in
      elim (Bool-cases (is_current s.store j)) [
        | inl e ↦
            let (changed, jobs) = settle_kept j o now s.store e in
            still-IsTracked s t
              (λ key n not_closed wanted.
                let (other, before) = forgotten key n changed wanted in
                let unlike : is_task key n j ≡ false = rw other refl in
                (
                  sym closed ∙ not_closed,
                  before,
                  λ w. rw (jobs, has_task-erase_at key n s.running i j at unlike) w,
                ))
              (λ e. closed ∙ h.closing (sym stopped ∙ e)) h
        | inr e ↦
            let same = settle_ignored j o now s.store e in
            still-IsTracked s t
              (λ key n not_closed wanted.
                let open_before = sym closed ∙ not_closed in
                let before : pending_of s.store key ≡ some n =
                  sym (ap (λ x. pending_of x key) same) ∙ wanted in
                let unlike = unwanted s.store j key n e open_before before in
                (
                  open_before,
                  before,
                  λ w. rw (same, has_task-erase_at key n s.running i j at unlike) w,
                ))
              (λ e. closed ∙ h.closing (sym stopped ∙ e)) h
      ]
