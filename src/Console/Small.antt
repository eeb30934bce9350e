-- ===== src/Console/Small.antt =====
-- The lists of the console's store, mihomoctl/controller/controller_state.py, stay within their bounds.
use mihomo_userctl.Base.{
  ℕ, ◌≤◌, ◌≡◌, refl, inl, inr, String, Option, none, some, List, [], ◌∷◌, ◌==◌, ◌||◌, is_some,
  nat_eq, string_eq, length, length-append, ltb, not, contains, Bool-cases, arith,
}
use mihomo_userctl.Base.Dict
use mihomo_userctl.Console.{Store, Job, Probe, append_within, max_events, max_logs, max_jobs}
use mihomo_userctl.Console.Actions
use mihomo_userctl.Console.Actions.{Outcome, returned, raised, notify, is_current, logged}

length-append_within :
    {A : Type 0} (n : ℕ) (xs : List A) (a : A) → length xs ≤ n → length (append_within n xs a) ≤ n
unfolding append_within
length-append_within n [] a h = ground arith
length-append_within n (x ∷ xs) a h = ground (arith, length-append xs (a ∷ []))

module _ {V : Type 0} where
  pub record IsSmall (s : Store V) : Type 0 where
    pub events : length s.events ≤ max_events
    pub logs : length s.logs ≤ max_logs
    pub jobs : length s.jobs ≤ max_jobs

  -- The three lists that grow.
  pub same-IsSmall :
      (s t : Store V)
      → t.events ≡ s.events
      → t.logs ≡ s.logs
      → t.jobs ≡ s.jobs
      → IsSmall s
      → IsSmall t
  same-IsSmall s t e l j small = record {
    events = rw e small.events;
    logs = rw l small.logs;
    jobs = rw j small.jobs;
  }

  pub notify-IsSmall : (event : String) (s : Store V) → IsSmall s → IsSmall (notify event s)
  notify-IsSmall event s small = record {
    events = length-append_within max_events s.events event small.events;
    logs = small.logs;
    jobs = small.jobs;
  }

  pub submit-IsSmall : (key : String) (s : Store V) → IsSmall s → IsSmall (Actions.submit key s).1
  unfolding Actions.submit
  submit-IsSmall key s small = elim (Bool-cases (s.closed || is_some (Dict.get s.pending key))) [
    | inl e ↦ rw e small
    | inr e ↦ elim (Bool-cases (ltb (length s.jobs) max_jobs)) [
      | inl f ↦
          simp (e, f)
            (record {
              events = small.events;
              logs = small.logs;
              jobs = ground (
                arith,
                length-append s.jobs
                    (record { key = key; revision = Actions.next_revision s key } ∷ []),
              );
            })
      | inr f ↦ simp (e, f) (notify-IsSmall key _ (same-IsSmall s _ refl refl refl small))
    ]
  ]

  pub settle-IsSmall :
      (j : Job) (o : Outcome V) (now : ℕ) (s : Store V)
      → IsSmall s
      → IsSmall (Actions.settle j o now s)
  unfolding Actions.settle
  settle-IsSmall j o now s small = elim (Bool-cases (is_current s j)) [
    | inl e ↦
        rw (Actions.settle, e) (notify-IsSmall j.key _ (same-IsSmall s _ refl refl refl small))
    | inr e ↦ rw (Actions.settle, e) small
  ]

  logged-length :
      (key : String) (v : Option V) (logs : List V)
      → length logs ≤ max_logs
      → length (logged key v logs) ≤ max_logs
  logged-length key none logs h = h
  logged-length key (some v) logs h = elim (Bool-cases (key == "logs")) [
    | inl e ↦ rw e (length-append_within max_logs logs v h)
    | inr e ↦ rw e h
  ]

  pub emit_outcome-IsSmall :
      (key : String) (now : ℕ) (o : Outcome V) (s : Store V)
      → IsSmall s
      → IsSmall (Actions.emit_outcome key now o s)
  unfolding Actions.emit_outcome
  emit_outcome-IsSmall key now (returned v) s small = record {
    events = small.events;
    logs = logged-length key v s.logs small.logs;
    jobs = small.jobs;
  }
  emit_outcome-IsSmall key now (raised code _ _) s small = elim (Bool-cases (code == "")) [
    | inl e ↦ rw e (same-IsSmall s _ refl refl refl small)
    | inr e ↦ rw e (same-IsSmall s _ refl refl refl small)
  ]

  pub emit-IsSmall :
      (key : String) (stop : ℕ) (o : Outcome V) (now : ℕ) (s : Store V)
      → IsSmall s
      → IsSmall (Actions.emit key stop o now s)
  unfolding Actions.emit
  emit-IsSmall key stop o now s small = elim (Bool-cases (s.closed || contains s.halted stop)) [
    | inl e ↦ rw e small
    | inr e ↦ rw e (notify-IsSmall key _ (emit_outcome-IsSmall key now o s small))
  ]

  pub stream-IsSmall : (key : String) (s : Store V) → IsSmall s → IsSmall (Actions.stream key s).1
  unfolding Actions.stream
  stream-IsSmall key s small = elim (Bool-cases (s.closed || is_some (Dict.get s.streams key))) [
    | inl e ↦ rw e small
    | inr e ↦ rw e (same-IsSmall s _ refl refl refl small)
  ]

  module _ (digest : List (Option String) → String) where
    pub probe-IsSmall :
        (generation : ℕ) (p : Probe V) (s : Store V)
        → IsSmall s
        → IsSmall (Actions.probe_result digest generation p s)
    unfolding Actions.probe_result
    probe-IsSmall generation p s small =
        elim (Bool-cases (s.closed || not s.probe_open || not (generation == s.probe_generation))) [
          | inl e ↦ rw e small
          | inr e ↦ rw e (notify-IsSmall "probe-results" _ (same-IsSmall s _ refl refl refl small))
        ]
