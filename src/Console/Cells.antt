-- ===== src/Console/Cells.antt =====
-- An abstract view of the console for one key, for mihomoctl/controller/controller_state.py: a value
-- with a version, and at most one version whose result is awaited.
use mihomo_userctl.Base.{
  ℕ, suc, String, Bool, Option, none, some, List, [], ◌∷◌, ◌==◌, ◌||◌, is_some, nat_eq, string_eq,
  contains, length, ltb, get_elem?, if◌then◌else◌,
}
use mihomo_userctl.Console.{Store, Job, max_jobs}
use mihomo_userctl.Console.Actions.{Outcome, is_at}
use mihomo_userctl.Console.Schedule.{System, Act, submit, invalidate, settle, emit}
use mihomo_userctl.Console.Books.{revision_of, pending_of, value_of, shown_after}

-- `answered` has the versions whose result was kept, the last one first.
pub record Cell (V : Type 0) : Type 0 where
  pub version : ℕ
  pub awaited : Option ℕ
  pub value : Option V
  pub answered : List ℕ

pub data Request (V : Type 0) : Type 0 where
  idle ask refuse reset : Request V
  answer : ℕ → Outcome V → Request V
  fill : Outcome V → Request V

abbrev pub revisions_at : String → List Job → List ℕ
revisions_at key [] = []
revisions_at key (j ∷ js) =
    let rest = revisions_at key js in if j.key == key then j.revision ∷ rest else rest

module _ {V : Type 0} where
  abbrev pub new_cell : Cell V
  new_cell = record { version = 0; awaited = none; value = none; answered = [] }

  abbrev pub cell : System V → String → Cell V
  cell s key = record {
    version = revision_of s.store key;
    awaited = pending_of s.store key;
    value = value_of s.store key;
    answered = revisions_at key s.kept;
  }

  -- What the key is owed: a task may be asked for when none is awaited; a result counts when its
  -- version is the awaited one.
  unfoldable pub serve : Request V → Cell V → Cell V
  serve idle c = c
  serve ask c =
      if is_some c.awaited
      then c
      else record c { version = suc c.version; awaited = some (suc c.version) }
  serve refuse c =
      if is_some c.awaited then c else record c { version = suc c.version; awaited = none }
  serve reset c = record c { version = suc c.version; awaited = none }
  serve (answer r outcome) c =
      if is_at c.awaited r
      then record c {
        awaited = none;
        value = shown_after outcome c.value;
        answered = r ∷ c.answered;
      }
      else c
  serve (fill outcome) c = record c { value = shown_after outcome c.value }

  unfoldable pub serve_all : List (Request V) → Cell V → Cell V
  unfolding serve
  serve_all [] c = c
  serve_all (q ∷ qs) c = serve_all qs (serve q c)

  abbrev pub answer_of : String → Bool → Option Job → Outcome V → Request V
  answer_of key closed none outcome = idle
  answer_of key closed (some j) outcome =
      if j.key == key then if closed then idle else answer j.revision outcome else idle

  abbrev pub fill_of : String → Store V → Option (String × ℕ) → Outcome V → Request V
  fill_of key s none outcome = idle
  fill_of key s (some (k, stop)) outcome =
      if k == key then if s.closed || contains s.halted stop then idle else fill outcome else idle

  -- What a step asks of a key.
  unfoldable pub request : Act V → System V → String → Request V
  request (submit k) s key =
      if k == key
      then if s.store.closed
        then idle
        else if ltb (length s.store.jobs) max_jobs
        then ask
        else refuse
      else idle
  request (invalidate k) s key = if k == key then reset else idle
  request (settle i outcome now) s key =
      answer_of key s.store.closed (get_elem? s.running i) outcome
  request (emit i outcome now) s key = fill_of key s.store (get_elem? s.producers i) outcome
  request _ s key = idle
