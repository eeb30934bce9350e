-- ===== src/Console/Bounds.antt =====
-- How large the console's state can grow, mihomoctl/controller/controller_state.py.
use mihomo_userctl.Base.{
  ℕ, zero, suc, ◌≤◌, ◌≡◌, refl, inl, inr, String, Option, none, some, List, [], ◌∷◌, nat_eq,
  string_eq, length, length-append, ltb, ltb→lt, ◌<◌, ap, get_elem?, erase_at, Bool-cases, arith,
}
use mihomo_userctl.Console.{Store, Job, max_events, max_logs, max_jobs}
use mihomo_userctl.Console.Actions
use mihomo_userctl.Console.Actions.{Outcome, returned, raised, notify, is_current, logged}
use mihomo_userctl.Console.Schedule.{
  System, Act, submit, invalidate, stream, stop_stream, drain, close, shutdown, begin_probe,
  take_probes, progress, probe, take, settle, abandon, emit, end_stream, take_first, settle_job,
  emit_from, end_at, opened, step, run, new_system,
}
use mihomo_userctl.Console.Small.{
  IsSmall, same-IsSmall, notify-IsSmall, submit-IsSmall, settle-IsSmall, emit-IsSmall,
  stream-IsSmall, probe-IsSmall,
}

length-erase_at : {A : Type 0} (xs : List A) (i : ℕ) → length (erase_at xs i) ≤ length xs
length-erase_at [] i = omega arith
length-erase_at (x ∷ xs) zero = omega arith
length-erase_at (x ∷ xs) (suc i) = omega (arith, length-erase_at xs i)

module _ {V : Type 0} where
  module _ (digest : List (Option String) → String) (workers : ℕ) where
    -- The queues, the log and the pool are within their bounds.
    pub record IsBounded (s : System V) : Type 0 where
      pub events : length s.store.events ≤ max_events
      pub logs : length s.store.logs ≤ max_logs
      pub jobs : length s.store.jobs ≤ max_jobs
      pub running : length s.running ≤ workers

    IsSmall-of : (s : System V) → IsBounded s → IsSmall s.store
    IsSmall-of s b = record { events = b.events; logs = b.logs; jobs = b.jobs }

    bounded : (s : System V) → IsSmall s.store → length s.running ≤ workers → IsBounded s
    bounded s small few = record {
      events = small.events;
      logs = small.logs;
      jobs = small.jobs;
      running = few;
    }

    take_first-IsBounded :
        (js : List Job) (s : System V)
        → s.store.jobs ≡ js
        → length s.running < workers
        → IsBounded s
        → IsBounded (take_first js s)
    take_first-IsBounded [] s e lt b = b
    take_first-IsBounded (j ∷ js) s e lt b = record {
      events = b.events;
      logs = b.logs;
      jobs = omega (arith, ap length e, b.jobs);
      running = omega (arith, length-append s.running (j ∷ []));
    }

    opened-IsBounded :
        (key : String) (r : Option ℕ × Store V) (s : System V)
        → IsSmall r.1
        → length s.running ≤ workers
        → IsBounded (opened key r s)
    opened-IsBounded key (none, t) s small few = bounded _ small few
    opened-IsBounded key (some stop, t) s small few = bounded _ small few

    settle_job-IsBounded :
        (i : ℕ) (j : Option Job) (o : Outcome V) (now : ℕ) (s : System V)
        → IsBounded s
        → IsBounded (settle_job i j o now s)
    settle_job-IsBounded i none o now s b = b
    settle_job-IsBounded i (some j) o now s b =
        bounded _ (settle-IsSmall j o now s.store (IsSmall-of s b))
          (omega (arith, length-erase_at s.running i, b.running))

    emit_from-IsBounded :
        (p : Option (String × ℕ)) (o : Outcome V) (now : ℕ) (s : System V)
        → IsBounded s
        → IsBounded (emit_from p o now s)
    emit_from-IsBounded none o now s b = b
    emit_from-IsBounded (some (key, stop)) o now s b =
        bounded _ (emit-IsSmall key stop o now s.store (IsSmall-of s b)) b.running

    end_at-IsBounded :
        (i : ℕ) (p : Option (String × ℕ)) (s : System V) → IsBounded s → IsBounded (end_at i p s)
    unfolding Actions.end_stream
    end_at-IsBounded i none s b = b
    end_at-IsBounded i (some (key, stop)) s b =
        bounded _ (same-IsSmall s.store _ refl refl refl (IsSmall-of s b)) b.running

    step-IsBounded : (a : Act V) (s : System V) → IsBounded s → IsBounded (step digest workers a s)
    unfolding step Actions.invalidate Actions.stop_stream Actions.drain Actions.close
        Actions.shutdown Actions.begin_probe Actions.take_probe_results Actions.set_progress
    step-IsBounded (submit key) s b =
        bounded _ (submit-IsSmall key s.store (IsSmall-of s b)) b.running
    step-IsBounded (invalidate key) s b =
        bounded _ (same-IsSmall s.store _ refl refl refl (IsSmall-of s b)) b.running
    step-IsBounded (stream key) s b =
        opened-IsBounded key (Actions.stream key s.store) s
          (stream-IsSmall key s.store (IsSmall-of s b)) b.running
    step-IsBounded (stop_stream key) s b =
        bounded _ (same-IsSmall s.store _ refl refl refl (IsSmall-of s b)) b.running
    step-IsBounded drain s b = record {
      events = omega arith;
      logs = b.logs;
      jobs = b.jobs;
      running = b.running;
    }
    step-IsBounded close s b =
        bounded _ (same-IsSmall s.store _ refl refl refl (IsSmall-of s b)) b.running
    step-IsBounded shutdown s b = elim (Bool-cases s.store.closed) [
      | inl e ↦
          simp e (bounded _ (same-IsSmall s.store _ refl refl refl (IsSmall-of s b)) b.running)
      | inr e ↦ simp e b
    ]
    step-IsBounded begin_probe s b =
        bounded _ (same-IsSmall s.store _ refl refl refl (IsSmall-of s b)) b.running
    step-IsBounded (take_probes finish) s b =
        bounded _ (same-IsSmall s.store _ refl refl refl (IsSmall-of s b)) b.running
    step-IsBounded (progress x y) s b =
        bounded _
          (notify-IsSmall "progress" _ (same-IsSmall s.store _ refl refl refl (IsSmall-of s b)))
          b.running
    step-IsBounded (probe generation p) s b =
        bounded _ (probe-IsSmall digest generation p s.store (IsSmall-of s b)) b.running
    step-IsBounded take s b = elim (Bool-cases s.store.stopped) [
      | inl e ↦ simp e b
      | inr e ↦ elim (Bool-cases (ltb (length s.running) workers)) [
        | inl f ↦
            simp (e, f)
              (take_first-IsBounded s.store.jobs s refl (ltb→lt (length s.running) workers f) b)
        | inr f ↦ simp (e, f) b
      ]
    ]
    step-IsBounded (settle i o now) s b = settle_job-IsBounded i (get_elem? s.running i) o now s b
    step-IsBounded (abandon i) s b = elim (Bool-cases s.store.stopped) [
      | inl e ↦
          simp e
            (bounded _ (IsSmall-of s b) (omega (arith, length-erase_at s.running i, b.running)))
      | inr e ↦ simp e b
    ]
    step-IsBounded (emit i o now) s b = emit_from-IsBounded (get_elem? s.producers i) o now s b
    step-IsBounded (end_stream i) s b = end_at-IsBounded i (get_elem? s.producers i) s b

    run-IsBounded :
        (acts : List (Act V)) (s : System V) → IsBounded s → IsBounded (run digest workers acts s)
    unfolding run
    run-IsBounded [] s b = b
    run-IsBounded (a ∷ acts) s b =
        run-IsBounded acts (step digest workers a s) (step-IsBounded a s b)

    -- However the threads are interleaved, at most 100 events, 2000 lines of the log and 32 tasks
    -- wait, and no more tasks run than there are workers.
    pub console_bounds : (acts : List (Act V)) → IsBounded (run digest workers acts new_system)
    console_bounds acts = run-IsBounded acts new_system (record {
      events = omega arith;
      logs = omega arith;
      jobs = omega arith;
      running = omega arith;
    })
