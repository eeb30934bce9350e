-- ===== src/Console.antt =====
-- mihomoctl/controller/controller_state.py: the state of the interactive console, which worker
-- threads and streams change under one lock.
-- A call that holds the lock is one step; between two steps any thread may act. The values that
-- operations return, and the rows of probes, are of any type; `digest` is the keyed hash of a text
-- in `node_identity` of mihomoctl/controller/controller_types.py.
pub mod Labels
pub mod Actions
pub mod Schedule
pub mod Small
pub mod Bounds
pub mod Books
pub mod Cells
pub mod Shown
pub mod Refined
pub mod Answers
pub mod Tasks
pub mod Tracked
pub mod Reached
pub mod Settles
use mihomo_userctl.Base.{
  ℕ, String, Bool, true, false, Option, none, some, List, [], ◌∷◌, ◌++◌, ◌==◌, nat_eq, length,
  if◌then◌else◌,
}
use mihomo_userctl.Base.Dict.{Dict}
use mihomo_userctl.Console.Labels.{OperationState}

-- `failed` is "error".
pub data Freshness : Type 0 where
  loading fresh stale failed unsupported : Freshness

pub record Snapshot (V : Type 0) : Type 0 where
  pub value : Option V
  pub freshness : Freshness
  pub sampled_at : ℕ
  pub error : String
  pub error_label : String
  pub revision : ℕ
  pub safe_detail : String
  pub operation_state : Option OperationState

abbrev pub new_snapshot : {V : Type 0} → Snapshot V
new_snapshot = record {
  value = none;
  freshness = loading;
  sampled_at = 0;
  error = "";
  error_label = "";
  revision = 0;
  safe_detail = "";
  operation_state = none;
}

-- What a probe reports; `row` is the rest of it.
pub record Probe (V : Type 0) : Type 0 where
  pub target_id : Option String
  pub name : String
  pub provider : Option String
  pub row : V

-- A task in the queue: the key that it fills, with the revision at which it was submitted.
pub record Job : Type 0 where
  pub key : String
  pub revision : ℕ

-- `Store`, with its `ConsoleState` and the queue of its `Workers`. A stream is known by the number of
-- its `Event`; `halted` has the numbers of those that are set.
pub record Store (V : Type 0) : Type 0 where
  pub snapshots : Dict String (Snapshot V)
  pub logs : List V
  pub progress : ℕ × ℕ
  pub pending : Dict String ℕ
  pub events : List String
  pub closed : Bool
  pub streams : Dict String ℕ
  pub stops : ℕ
  pub halted : List ℕ
  pub probe_generation : ℕ
  pub probe_results : Dict String (Probe V)
  pub probe_open : Bool
  pub jobs : List Job
  pub stopped : Bool

abbrev pub new_store : {V : Type 0} → Store V
new_store = record {
  snapshots = [];
  logs = [];
  progress = (0, 0);
  pending = [];
  events = [];
  closed = false;
  streams = [];
  stops = 0;
  halted = [];
  probe_generation = 0;
  probe_results = [];
  probe_open = false;
  jobs = [];
  stopped = false;
}

-- `deque.append` with a `maxlen`, which drops the first entry of a full deque
unfoldable pub append_within : {A : Type 0} → ℕ → List A → A → List A
append_within n [] a = if n == 0 then [] else a ∷ []
append_within n (x ∷ xs) a = if length (x ∷ xs) == n then xs ++ (a ∷ []) else x ∷ (xs ++ (a ∷ []))

abbrev pub max_events : ℕ
max_events = 100

abbrev pub max_logs : ℕ
max_logs = 2000

-- `queue.Queue(maxsize=32)`
abbrev pub max_jobs : ℕ
max_jobs = 32
