-- ===== src/Console/Actions.antt =====
-- The methods of `Store` in mihomoctl/controller/controller_state.py, each of what it does under the
-- lock.
use mihomo_userctl.Base.{
  ℕ, suc, String, Bool, true, false, not, Option, none, some, List, [], ◌∷◌, ◌++◌, ◌==◌, ◌&&◌, ◌||◌,
  nat_eq, string_eq, is_some, length, contains, map, ltb, if◌then◌else◌,
}
use mihomo_userctl.Base.Dict
use mihomo_userctl.Base.Dict.{Dict}
use mihomo_userctl.Console.{
  Freshness, loading, fresh, stale, failed, unsupported, Snapshot, new_snapshot, Probe, Job, Store,
  append_within, max_events, max_logs, max_jobs,
}
use mihomo_userctl.Console.Labels.{OperationState, label_of}

-- How an operation of a task or of a stream ends: with a value, or with the code of an exception, the
-- detail that may be shown, and the state of the operation.
pub data Outcome (V : Type 0) : Type 0 where
  returned : Option V → Outcome V
  raised : String → String → Option OperationState → Outcome V

abbrev pub or_new : {V : Type 0} → Option (Snapshot V) → Snapshot V
or_new none = new_snapshot
or_new (some s) = s

abbrev pub is_at : Option ℕ → ℕ → Bool
is_at none n = false
is_at (some m) n = m == n

abbrev pub halt_some : Option ℕ → List ℕ → List ℕ
halt_some none halted = halted
halt_some (some stop) halted = stop ∷ halted

abbrev pub stops_of : Dict String ℕ → List ℕ
stops_of d = map (λ (k, stop). stop) d

-- `node_identity`
abbrev pub node_identity : (List (Option String) → String) → String → Option String → String
node_identity digest name provider = digest (provider ∷ some name ∷ [])

abbrev pub or_identity : Option String → String → String
or_identity none identity = identity
or_identity (some s) identity = if s == "" then identity else s

module _ {V : Type 0} where
  -- `snapshots.setdefault(key, Snapshot())`
  abbrev pub snapshot_of : Store V → String → Snapshot V
  snapshot_of s key = or_new (Dict.get s.snapshots key)

  abbrev pub put_snapshot : String → Snapshot V → Store V → Store V
  put_snapshot key snap s = record s { snapshots = Dict.put s.snapshots key snap }

  abbrev pub notify : String → Store V → Store V
  notify event s = record s { events = append_within max_events s.events event }

  abbrev pub without_pending : String → Store V → Store V
  without_pending key s = record s { pending = Dict.remove s.pending key }

  -- `"stale" if snap.value is not None else …`
  abbrev pub stale_or : Freshness → Option V → Freshness
  stale_or other none = other
  stale_or other (some v) = stale

  abbrev busy : Snapshot V → Snapshot V
  busy snap = record snap {
    error = "console-busy";
    error_label = label_of "console-busy";
    freshness = stale_or failed snap.value;
  }

  abbrev pub next_revision : Store V → String → ℕ
  next_revision s key = suc (snapshot_of s key).revision

  abbrev pub raised_revision : Store V → String → Snapshot V
  raised_revision s key = record (snapshot_of s key) { revision = next_revision s key }

  -- `submit`, and whether it is accepted
  unfoldable pub submit : String → Store V → Bool × Store V
  unfolding append_within label_of
  submit key s =
      if s.closed || is_some (Dict.get s.pending key)
      then (false, s)
      else if ltb (length s.jobs) max_jobs
      then (
        true,
        record (put_snapshot key (raised_revision s key) s) {
          pending = Dict.put s.pending key (next_revision s key);
          jobs = s.jobs ++ (record { key = key; revision = next_revision s key } ∷ []);
        },
      )
      else (
        false,
        notify key (without_pending key (put_snapshot key (busy (raised_revision s key)) s)),
      )

  abbrev pub freshness_after : String → Option V → Freshness
  freshness_after code value =
      if code == "controller-capability-unsupported" then unsupported else stale_or failed value

  abbrev with_error : String → Snapshot V → Snapshot V
  with_error code snap = record snap {
    freshness = freshness_after code snap.value;
    error = code;
    error_label = label_of code;
  }

  abbrev with_value : ℕ → Option V → Snapshot V → Snapshot V
  with_value now value snap = record snap {
    value = value;
    error = "";
    error_label = "";
    sampled_at = now;
    freshness = fresh;
  }

  -- An exception whose code is empty counts as no error, as `if error` has it.
  unfoldable pub record_outcome : ℕ → Outcome V → Snapshot V → Snapshot V
  unfolding label_of
  record_outcome now (returned value) snap =
      with_value now value (record snap { safe_detail = ""; operation_state = none })
  record_outcome now (raised code detail state) snap =
      let told = record snap { safe_detail = detail; operation_state = state } in
      if code == "" then with_value now none told else with_error code told

  -- The result of a task is still wanted.
  abbrev pub is_current : Store V → Job → Bool
  is_current s j = not s.closed && is_at (Dict.get s.pending j.key) j.revision

  -- The end of `_run`, with whether it took the branch that shows the result. A key that is pending
  -- has a snapshot, so that no `KeyError` is raised.
  abbrev pub settled : Job → Outcome V → ℕ → Store V → Bool × Store V
  settled j outcome now s =
      if is_current s j
      then (
        true,
        notify j.key (
            put_snapshot j.key (record_outcome now outcome (snapshot_of s j.key))
              (without_pending j.key s)),
      )
      else (false, s)

  unfoldable pub settle : Job → Outcome V → ℕ → Store V → Store V
  unfolding record_outcome append_within
  settle j outcome now s = (settled j outcome now s).1

  unfoldable pub invalidate : String → Store V → Store V
  invalidate key s =
      put_snapshot key
        (record (raised_revision s key) { freshness = stale_or loading (snapshot_of s key).value })
        (without_pending key s)

  unfoldable pub drain : Store V → List String × Store V
  drain s = (s.events, record s { events = [] })

  unfoldable pub set_progress : ℕ → ℕ → Store V → Store V
  unfolding append_within
  set_progress completed total s = notify "progress" (record s { progress = (completed, total) })

  -- `stream`, with the number of its event where it is accepted
  unfoldable pub stream : String → Store V → Option ℕ × Store V
  stream key s = if s.closed || is_some (Dict.get s.streams key) then (none, s) else (
    some s.stops,
    record s { streams = Dict.put s.streams key s.stops; stops = suc s.stops },
  )

  abbrev pub logged : String → Option V → List V → List V
  logged key none logs = logs
  logged key (some v) logs = if key == "logs" then append_within max_logs logs v else logs

  -- The snapshot and the logs after an `emit` that counts.
  unfoldable pub emit_outcome : String → ℕ → Outcome V → Store V → Store V
  unfolding label_of append_within
  emit_outcome key now (returned value) s =
      record (put_snapshot key (with_value now value (snapshot_of s key)) s) {
        logs = logged key value s.logs;
      }
  emit_outcome key now (raised code _ _) s =
      if code == ""
      then record (put_snapshot key (with_value now none (snapshot_of s key)) s) { logs = s.logs }
      else put_snapshot key (with_error code (snapshot_of s key)) s

  -- `emit` of a stream
  unfoldable pub emit : String → ℕ → Outcome V → ℕ → Store V → Store V
  unfolding emit_outcome append_within
  emit key stop outcome now s =
      if s.closed || contains s.halted stop then s else notify key (emit_outcome key now outcome s)

  -- The `finally` of a stream's thread.
  unfoldable pub end_stream : String → Store V → Store V
  end_stream key s = record s { streams = Dict.remove s.streams key }

  unfoldable pub stop_stream : String → Store V → Store V
  stop_stream key s = record s { halted = halt_some (Dict.get s.streams key) s.halted }

  -- What `close` does under the lock; `shutdown` of the workers follows.
  unfoldable pub close : Store V → Store V
  close s = record s { closed = true; halted = stops_of s.streams ++ s.halted }

  unfoldable pub shutdown : Store V → Store V
  shutdown s = record s { stopped = true }

  unfoldable pub begin_probe : Store V → ℕ × Store V
  begin_probe s = (
    suc s.probe_generation,
    record s { probe_generation = suc s.probe_generation; probe_results = []; probe_open = true },
  )

  module _ (digest : List (Option String) → String) where
    unfoldable pub probe_result : ℕ → Probe V → Store V → Store V
    unfolding append_within
    probe_result generation p s =
        if s.closed || not s.probe_open || not (generation == s.probe_generation)
        then s
        else notify "probe-results" (record s {
          probe_results =
              Dict.put s.probe_results
                (or_identity p.target_id (node_identity digest p.name p.provider)) p;
        })

  unfoldable pub take_probe_results : Bool → Store V → List (Probe V) × Store V
  take_probe_results finish s = (
    map (λ (k, p). p) s.probe_results,
    record s { probe_results = []; probe_open = s.probe_open && not finish },
  )
