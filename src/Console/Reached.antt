-- ===== src/Console/Reached.antt =====
-- After every sequence of steps of mihomoctl/controller/controller_state.py, the tasks that are waited
-- for are in the queue or with a worker.
use mihomo_userctl.Base.{
  ℕ, ◌≡◌, refl, inl, inr, String, true, Option, none, some, List, [], ◌∷◌, ◌++◌, ◌||◌, is_some,
  nat_eq, string_eq, length, ltb, get_elem?, Bool-cases,
}
use mihomo_userctl.Base.Dict
use mihomo_userctl.Console.{Job}
use mihomo_userctl.Console.Actions
use mihomo_userctl.Console.Actions.{Outcome, is_current, is_at, next_revision}
use mihomo_userctl.Console.Schedule.{
  System, Act, submit, invalidate, stream, stop_stream, drain, close, shutdown, begin_probe,
  take_probes, progress, probe, take, settle, abandon, emit, end_stream, on_store, take_first,
  emit_from, end_at, opened, step, run, new_system,
}
use mihomo_userctl.Console.Books.{invalidate_changes}
use mihomo_userctl.Console.Tasks.{is_task, has_task, turned, has_task-append}
use mihomo_userctl.Console.Tracked.{
  IsTracked, same-IsTracked, forgotten-IsTracked, on_store-IsTracked, submit-IsTracked,
  settle_job-IsTracked, still-IsTracked, emit-SameTasks, probe-SameTasks,
}

module _ {V : Type 0} where
  opened-IsTracked :
      (name : String) (s : System V)
      → IsTracked s
      → IsTracked (opened name (Actions.stream name s.store) s)
  unfolding Actions.stream
  opened-IsTracked name s h =
      elim (Bool-cases (s.store.closed || is_some (Dict.get s.store.streams name))) [
        | inl e ↦ simp e h
        | inr e ↦ simp e (same-IsTracked s _ refl refl refl refl refl h)
      ]

  emit_from-IsTracked :
      (p : Option (String × ℕ)) (o : Outcome V) (now : ℕ) (s : System V)
      → IsTracked s
      → IsTracked (emit_from p o now s)
  emit_from-IsTracked none o now s h = h
  emit_from-IsTracked (some (name, stop)) o now s h =
      on_store-IsTracked (Actions.emit name stop o now) s (emit-SameTasks name stop o now s.store) h

  take_first-IsTracked :
      (js : List Job) (s : System V) → s.store.jobs ≡ js → IsTracked s → IsTracked (take_first js s)
  unfolding has_task
  take_first-IsTracked [] s e h = h
  take_first-IsTracked (j ∷ js) s e h =
      still-IsTracked s (take_first (j ∷ js) s)
        (λ key n not_closed wanted. (not_closed, wanted, λ w. moved key n (rw e at w))) h.closing h
    where
      moved :
          (key : String) (n : ℕ)
          → (has_task key n (j ∷ js) || has_task key n s.running) ≡ true
          → (has_task key n js || has_task key n (s.running ++ (j ∷ []))) ≡ true
      moved key n w =
          rw (has_task-append key n s.running (j ∷ []))
            (turned (is_task key n j) (has_task key n js) (has_task key n s.running) w)

  end_at-IsTracked :
      (i : ℕ) (p : Option (String × ℕ)) (s : System V) → IsTracked s → IsTracked (end_at i p s)
  unfolding Actions.end_stream
  end_at-IsTracked i none s h = h
  end_at-IsTracked i (some (name, stop)) s h = same-IsTracked s _ refl refl refl refl refl h

  pub new_system-IsTracked : IsTracked {V = V} new_system
  unfolding Dict.get
  new_system-IsTracked = record { working = λ key n e w. cc; closing = λ e. cc }

  module _ (digest : List (Option String) → String) (workers : ℕ) where
    pub step-IsTracked :
        (a : Act V) (s : System V) → IsTracked s → IsTracked (step digest workers a s)
    unfolding step Actions.invalidate Actions.stop_stream Actions.drain Actions.close
        Actions.shutdown Actions.begin_probe Actions.take_probe_results Actions.set_progress
    step-IsTracked (submit name) s h = submit-IsTracked name s h
    step-IsTracked (invalidate name) s h =
        forgotten-IsTracked name s (on_store (Actions.invalidate name) s)
          (invalidate_changes name s.store) refl refl refl refl h
    step-IsTracked (stream name) s h = opened-IsTracked name s h
    step-IsTracked (stop_stream name) s h =
        on_store-IsTracked (Actions.stop_stream name) s (refl, refl, refl, refl) h
    step-IsTracked drain s h =
        on_store-IsTracked (λ t. (Actions.drain t).1) s (refl, refl, refl, refl) h
    step-IsTracked close s h = record { working = λ key n e w. cc; closing = λ e. refl }
    step-IsTracked shutdown s h = elim (Bool-cases s.store.closed) [
      | inl e ↦ simp e (record { working = λ key n f w. cc; closing = λ f. refl })
      | inr e ↦ simp e h
    ]
    step-IsTracked begin_probe s h =
        on_store-IsTracked (λ t. (Actions.begin_probe t).1) s (refl, refl, refl, refl) h
    step-IsTracked (take_probes finish) s h =
        on_store-IsTracked (λ t. (Actions.take_probe_results finish t).1) s (refl, refl, refl, refl)
          h
    step-IsTracked (progress x y) s h =
        on_store-IsTracked (Actions.set_progress x y) s (refl, refl, refl, refl) h
    step-IsTracked (probe generation p) s h =
        on_store-IsTracked (Actions.probe_result digest generation p) s
          (probe-SameTasks digest generation p s.store) h
    step-IsTracked take s h = elim (Bool-cases s.store.stopped) [
      | inl e ↦ simp e h
      | inr e ↦ elim (Bool-cases (ltb (length s.running) workers)) [
        | inl f ↦ simp (e, f) (take_first-IsTracked s.store.jobs s refl h)
        | inr f ↦ simp (e, f) h
      ]
    ]
    step-IsTracked (settle i o now) s h =
        settle_job-IsTracked i (get_elem? s.running i) o now s refl h
    step-IsTracked (abandon i) s h = elim (Bool-cases s.store.stopped) [
      | inl e ↦
          let shut = h.closing e in
          simp e (record { working = λ key n f w. cc; closing = h.closing })
      | inr e ↦ simp e h
    ]
    step-IsTracked (emit i o now) s h = emit_from-IsTracked (get_elem? s.producers i) o now s h
    step-IsTracked (end_stream i) s h = end_at-IsTracked i (get_elem? s.producers i) s h

    pub run-IsTracked :
        (acts : List (Act V)) (s : System V) → IsTracked s → IsTracked (run digest workers acts s)
    unfolding run
    run-IsTracked [] s h = h
    run-IsTracked (a ∷ acts) s h =
        run-IsTracked acts (step digest workers a s) (step-IsTracked a s h)
