-- ===== src/Console/Schedule.antt =====
-- The threads of mihomoctl/controller/controller_state.py, interleaved in any order: the frontend,
-- the workers, and the streams.
use mihomo_userctl.Base.{
  ℕ, String, Bool, true, false, Option, none, some, List, [], ◌∷◌, ◌++◌, length, ltb, get_elem?,
  erase_at, if◌then◌else◌,
}
use mihomo_userctl.Console.{Store, Job, Probe, new_store}
use mihomo_userctl.Console.Actions
use mihomo_userctl.Console.Actions.{Outcome, is_current}

-- The store; the tasks that workers have taken; the streams whose threads run, each with the number
-- of its event; and, for the proofs, the tasks whose results were shown, the last one first.
pub record System (V : Type 0) : Type 0 where
  pub store : Store V
  pub running : List Job
  pub producers : List (String × ℕ)
  pub kept : List Job

pub data Act (V : Type 0) : Type 0 where
  -- the frontend
  submit invalidate stream stop_stream : String → Act V
  drain close shutdown begin_probe : Act V
  take_probes : Bool → Act V
  progress : ℕ → ℕ → Act V
  probe : ℕ → Probe V → Act V
  -- a worker takes a task, ends the one at an index at a time, or drops it since the pool has stopped
  take : Act V
  settle : ℕ → Outcome V → ℕ → Act V
  abandon : ℕ → Act V
  -- the stream at an index
  emit : ℕ → Outcome V → ℕ → Act V
  end_stream : ℕ → Act V

abbrev pub keep_if : Bool → Job → List Job → List Job
keep_if true j js = j ∷ js
keep_if false j js = js

module _ {V : Type 0} where
  abbrev pub on_store : (Store V → Store V) → System V → System V
  on_store f s = record s { store = f s.store }

  abbrev pub take_first : List Job → System V → System V
  take_first [] s = s
  take_first (j ∷ js) s = record s {
    store = record s.store { jobs = js };
    running = s.running ++ (j ∷ []);
  }

  abbrev pub settle_job : ℕ → Option Job → Outcome V → ℕ → System V → System V
  settle_job i none outcome now s = s
  settle_job i (some j) outcome now s = record s {
    store = Actions.settle j outcome now s.store;
    running = erase_at s.running i;
    kept = keep_if (Actions.settled j outcome now s.store).0 j s.kept;
  }

  abbrev pub emit_from : Option (String × ℕ) → Outcome V → ℕ → System V → System V
  emit_from none outcome now s = s
  emit_from (some (key, stop)) outcome now s = on_store (Actions.emit key stop outcome now) s

  abbrev pub end_at : ℕ → Option (String × ℕ) → System V → System V
  end_at i none s = s
  end_at i (some (key, stop)) s = record s {
    store = Actions.end_stream key s.store;
    producers = erase_at s.producers i;
  }

  abbrev pub opened : String → Option ℕ × Store V → System V → System V
  opened key (none, store) s = record s { store = store }
  opened key (some stop, store) s = record s {
    store = store;
    producers = (key, stop) ∷ s.producers;
  }

  module _ (digest : List (Option String) → String) (workers : ℕ) where
    unfoldable pub step : Act V → System V → System V
    unfolding Actions.submit Actions.settle Actions.stream
    step (submit key) s = on_store (λ t. (Actions.submit key t).1) s
    step (invalidate key) s = on_store (Actions.invalidate key) s
    step (stream key) s = opened key (Actions.stream key s.store) s
    step (stop_stream key) s = on_store (Actions.stop_stream key) s
    step drain s = on_store (λ t. (Actions.drain t).1) s
    step close s = on_store Actions.close s
    -- the second half of `close`, which no one else calls
    step shutdown s = if s.store.closed then on_store Actions.shutdown s else s
    step begin_probe s = on_store (λ t. (Actions.begin_probe t).1) s
    step (take_probes finish) s = on_store (λ t. (Actions.take_probe_results finish t).1) s
    step (progress a b) s = on_store (Actions.set_progress a b) s
    step (probe generation p) s = on_store (Actions.probe_result digest generation p) s
    step take s =
        if s.store.stopped
        then s
        else if ltb (length s.running) workers
        then take_first s.store.jobs s
        else s
    step (settle i outcome now) s = settle_job i (get_elem? s.running i) outcome now s
    step (abandon i) s = if s.store.stopped then record s { running = erase_at s.running i } else s
    step (emit i outcome now) s = emit_from (get_elem? s.producers i) outcome now s
    step (end_stream i) s = end_at i (get_elem? s.producers i) s

    -- A sequence of steps from a state.
    unfoldable pub run : List (Act V) → System V → System V
    unfolding step
    run [] s = s
    run (a ∷ acts) s = run acts (step a s)

  abbrev pub new_system : System V
  new_system = record { store = new_store; running = []; producers = []; kept = [] }
