-- ===== src/Console/Refined.antt =====
-- The console of mihomoctl/controller/controller_state.py is, for each key, the cell of
-- Console/Cells.antt.
use mihomo_userctl.Base.{
  ℕ, ◌≡◌, refl, ap, ◌∙◌, inl, inr, String, not, Option, none, some, List, [], ◌∷◌, ◌==◌, ◌||◌,
  is_some, nat_eq, string_eq, length, ltb, get_elem?, Bool-cases,
}
use mihomo_userctl.Base.Dict
use mihomo_userctl.Console.{Store, Job, Probe}
use mihomo_userctl.Console.Actions
use mihomo_userctl.Console.Actions.{Outcome, is_current, is_at, or_new}
use mihomo_userctl.Console.Schedule.{
  System, Act, submit, invalidate, stream, stop_stream, drain, close, shutdown, begin_probe,
  take_probes, progress, probe, take, settle, abandon, emit, end_stream, on_store, take_first,
  end_at, opened, step, run, new_system,
}
use mihomo_userctl.Console.Cells.{Request, revisions_at, new_cell, cell, serve, serve_all, request}
use mihomo_userctl.Console.Shown.{cell_eq, submit-cell, invalidate-cell, settle-cell, emit-cell}

module _ {V : Type 0} where
  opened-cell :
      (name : String) (s : System V) (key : String)
      → cell (opened name (Actions.stream name s.store) s) key ≡ cell s key
  unfolding Actions.stream
  opened-cell name s key =
      elim (Bool-cases (s.store.closed || is_some (Dict.get s.store.streams name))) [
        | inl e ↦ simp e refl
        | inr e ↦ simp e refl
      ]

  take_first-cell :
      (js : List Job) (s : System V) (key : String) → cell (take_first js s) key ≡ cell s key
  take_first-cell [] s key = refl
  take_first-cell (j ∷ js) s key = refl

  end_at-cell :
      (i : ℕ) (p : Option (String × ℕ)) (s : System V) (key : String)
      → cell (end_at i p s) key ≡ cell s key
  unfolding Actions.end_stream
  end_at-cell i none s key = refl
  end_at-cell i (some (name, stop)) s key = refl

  -- Only the snapshots and the pending tasks show.
  same_cell :
      (s t : System V) (key : String)
      → t.store.snapshots ≡ s.store.snapshots
      → t.store.pending ≡ s.store.pending
      → t.kept ≡ s.kept
      → cell t key ≡ cell s key
  same_cell s t key e f g =
      cell_eq (ap (λ x. (or_new (Dict.get x key)).revision) e) (ap (λ x. Dict.get x key) f)
        (ap (λ x. (or_new (Dict.get x key)).value) e) (ap (revisions_at key) g)

  module _ (digest : List (Option String) → String) (workers : ℕ) where
    probe-Same :
        (generation : ℕ) (p : Probe V) (s : Store V)
        → ((Actions.probe_result digest generation p s).snapshots ≡ s.snapshots)
          × ((Actions.probe_result digest generation p s).pending ≡ s.pending)
    unfolding Actions.probe_result
    probe-Same generation p s =
        elim (Bool-cases (s.closed || not s.probe_open || not (generation == s.probe_generation))) [
          | inl e ↦ rw e (refl, refl)
          | inr e ↦ rw e (refl, refl)
        ]

    -- A step does to each key what the abstract view says of the request that it is.
    step-cell :
        (a : Act V) (s : System V) (key : String)
        → cell (step digest workers a s) key ≡ serve (request a s key) (cell s key)
    unfolding step request serve Actions.stop_stream Actions.drain Actions.close Actions.shutdown
        Actions.begin_probe Actions.take_probe_results Actions.set_progress
    step-cell (submit name) s key = submit-cell s name key
    step-cell (invalidate name) s key = invalidate-cell s name key
    step-cell (stream name) s key = opened-cell name s key
    step-cell (stop_stream name) s key = refl
    step-cell drain s key = refl
    step-cell close s key = refl
    step-cell shutdown s key = elim (Bool-cases s.store.closed) [
      | inl e ↦ simp e refl
      | inr e ↦ simp e refl
    ]
    step-cell begin_probe s key = refl
    step-cell (take_probes finish) s key = refl
    step-cell (progress x y) s key = refl
    step-cell (probe generation p) s key =
        let (snapshots, pending) = probe-Same generation p s.store in
        same_cell s (on_store (Actions.probe_result digest generation p) s) key snapshots pending
          refl
    step-cell take s key = elim (Bool-cases s.store.stopped) [
      | inl e ↦ simp e refl
      | inr e ↦ elim (Bool-cases (ltb (length s.running) workers)) [
        | inl f ↦ simp (e, f) (take_first-cell s.store.jobs s key)
        | inr f ↦ simp (e, f) refl
      ]
    ]
    step-cell (settle i o now) s key = settle-cell s i (get_elem? s.running i) o now key
    step-cell (abandon i) s key = elim (Bool-cases s.store.stopped) [
      | inl e ↦ simp e refl
      | inr e ↦ simp e refl
    ]
    step-cell (emit i o now) s key = emit-cell s (get_elem? s.producers i) o now key
    step-cell (end_stream i) s key = end_at-cell i (get_elem? s.producers i) s key

    -- What the steps of a sequence ask of a key, one after another.
    unfoldable pub requests : List (Act V) → System V → String → List (Request V)
    unfolding step request
    requests [] s key = []
    requests (a ∷ acts) s key = request a s key ∷ requests acts (step digest workers a s) key

    run-cell :
        (acts : List (Act V)) (s : System V) (key : String)
        → cell (run digest workers acts s) key ≡ serve_all (requests acts s key) (cell s key)
    unfolding run requests serve_all
    run-cell [] s key = refl
    run-cell (a ∷ acts) s key =
        run-cell acts (step digest workers a s) key
        ∙ ap (serve_all (requests acts (step digest workers a s) key)) (step-cell a s key)

    -- After any steps of the frontend, the workers and the streams, in any order, what the console has
    -- for a key is what the cell of that key has after the requests that these steps are: a task is
    -- accepted only when none is awaited, and a result is kept only if its version is the awaited one.
    pub console_refines :
        (acts : List (Act V)) (key : String)
        → cell (run digest workers acts new_system) key
          ≡ serve_all (requests acts new_system key) new_cell
    unfolding Dict.get
    console_refines acts key = run-cell acts new_system key
