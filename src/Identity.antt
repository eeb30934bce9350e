-- ===== src/Identity.antt =====
-- mihomoctl/identity.py: which process a recorded identity names, and how it is stopped.
-- Between two system calls anything may happen: each call is made at a tick of its own, and the world
-- says for every tick which process has a number, and what /proc shows of it. A process is the one
-- that was started under a number, and not the number.
pub mod Stop
pub mod Bound
pub mod Target
pub mod Seen
use mihomo_userctl.Base.{
  ℕ, zero, suc, String, Bool, true, false, not, Option, none, some, List, [], ◌∷◌, ◌==◌, ◌&&◌, ◌||◌,
  string_eq, nat_eq, Eq, leb, if◌then◌else◌, ok, raise, string_discrete,
}
use mihomo_userctl.Errors.{
  ErrorClass, state_error, observed_state_error, Exception, app, value_error, other_error, raised,
}
use mihomo_userctl.Text.{words, pieces, is_break, after_last, begins, split}
use mihomo_userctl.Trust.{Checked}

-- A file of /proc: its text, or why it cannot be read.
pub data Reading : Type 0 where
  found : String → Reading
  missing failed undecodable : Reading

pub record World : Type 0 where
  -- the process that has a number at a tick
  pub occupant : ℕ → ℕ → Option ℕ
  -- what /proc shows of a process at a tick
  pub stat : ℕ → ℕ → Reading
  pub status : ℕ → ℕ → Reading
  pub exe : ℕ → ℕ → Reading
  pub cmdline : ℕ → ℕ → Reading
  -- the entries of /proc/PID/fd, and where each of them leads
  pub fds : ℕ → ℕ → Option (List ℕ)
  pub fd_target : ℕ → ℕ → ℕ → Reading
  -- `time.monotonic()` in milliseconds, and the tick at which a sleep of so many milliseconds ends
  pub monotonic : ℕ → ℕ
  pub nap : ℕ → ℕ → ℕ
  -- whether Python has the calls on process descriptors, and whether the kernel permits a call
  pub has_pidfd : Bool
  pub may_open : ℕ → Bool
  pub may_signal : ℕ → Bool
  -- `int` of a text; /proc shows no negative number
  pub int_of : String → Option ℕ

-- Calls that only look at the world, each at the next tick.
abbrev pub Look : Type 0 → Type 0
Look A = ℕ → Checked A × ℕ

abbrev pub onward : {A B : Type 0} → Checked A × ℕ → (A → Look B) → Checked B × ℕ
onward (ok a, t) k = k a t
onward (raise e, t) k = (raise e, t)

infixl 5 ◌>>=◌
abbrev pub ◌>>=◌ : {A B : Type 0} → Look A → (A → Look B) → Look B
◌>>=◌ m k t = onward (m t) k

abbrev pub answer : {A : Type 0} → Checked A → Look A
answer r t = (r, t)

abbrev pub unreadable : Exception
unreadable = raised state_error "process-unreadable"

abbrev pub status_invalid : Exception
status_invalid = raised state_error "process-status-invalid"

abbrev pub mismatch : Exception
mismatch = raised state_error "process-identity-mismatch"

abbrev number : (String → Option ℕ) → Option String → Checked ℕ
number int_of none = raise status_invalid
number int_of (some s) = elim (int_of s) [ none ↦ raise status_invalid | some n ↦ ok n ]

abbrev pub nth : ℕ → List String → Option String
nth n [] = none
nth zero (w ∷ ws) = some w
nth (suc n) (w ∷ ws) = nth n ws

-- The fields after the name of the process: the state, and the start time as the twentieth.
abbrev start_field : (String → Option ℕ) → List String → Checked ℕ
start_field int_of [] = raise status_invalid
start_field int_of (state ∷ fields) =
    if state == "Z" || state == "X"
    then raise (raised state_error "process-exited")
    else number int_of (nth 18 fields)

abbrev start_after : (String → Option ℕ) → Option String → Checked ℕ
start_after int_of none = raise status_invalid
start_after int_of (some tail) = start_field int_of (words tail)

unfoldable pub start_of : (String → Option ℕ) → Reading → Checked ℕ
unfolding after_last words
start_of int_of (found s) = start_after int_of (after_last 41 s)
start_of int_of undecodable = raise value_error
start_of int_of _ = raise unreadable

abbrev uid_in : (String → Option ℕ) → Option String → Checked ℕ
uid_in int_of none = raise other_error
uid_in int_of (some s) = elim (int_of s) [ none ↦ raise value_error | some n ↦ ok n ]

abbrev uid_line : (String → Option ℕ) → List String → Checked ℕ
uid_line int_of [] = raise unreadable
uid_line int_of (l ∷ ls) =
    let rest = uid_line int_of ls in
    if begins l "Uid:" then uid_in int_of (nth 1 (words l)) else rest

unfoldable pub uid_of : (String → Option ℕ) → Reading → Checked ℕ
unfolding pieces words
uid_of int_of (found s) = uid_line int_of (pieces is_break s)
uid_of int_of undecodable = raise value_error
uid_of int_of _ = raise unreadable

unfoldable pub exe_of : Reading → Checked String
exe_of (found s) = ok s
exe_of _ = raise unreadable

abbrev flags : List String → ℕ
flags [] = 0
flags (a ∷ args) = let n = flags args in if a == "-f" then suc n else n

abbrev first_arg : List String → Checked (Option String)
first_arg [] = raise unreadable
first_arg (a ∷ args) = ok (some a)

abbrev after_flag : List String → Checked (Option String)
after_flag [] = raise unreadable
after_flag (a ∷ args) = let rest = after_flag args in if a == "-f" then first_arg args else rest

-- The text after the one `-f`; `os.fsdecode` keeps the difference of any two texts.
unfoldable pub config_of : Reading → Checked (Option String)
unfolding split
config_of (found s) = let args = split 0 s in if flags args == 1 then after_flag args else ok none
config_of _ = raise unreadable

pub record Facts : Type 0 where
  pub start_time : ℕ
  pub uid : ℕ
  pub exe : String
  pub config : Option String

pub record ProcessIdentity : Type 0 where
  pub pid : ℕ
  pub uid : ℕ
  pub start_time : ℕ
  pub exe : String
  pub config : Option String

instance unfoldable pub option_eq : Eq (Option String)
unfolding string_discrete
option_eq = record { dec = hlevel string_discrete }

abbrev pub same_facts : Facts → Facts → Bool
same_facts a b =
    a.start_time == b.start_time && a.uid == b.uid && a.exe == b.exe && a.config == b.config

module _ (w : World) where
  -- A file of the process that has the number at the tick.
  abbrev pub shown : (ℕ → ℕ → Reading) → ℕ → Option ℕ → Reading
  shown file t none = missing
  shown file t (some i) = file t i

  abbrev pub read : {A : Type 0} → (Reading → Checked A) → (ℕ → ℕ → Reading) → ℕ → Look A
  read parse file pid t = (parse (shown file t (w.occupant t pid)), suc t)

  unfoldable pub read_facts : ℕ → Look Facts
  unfolding start_of uid_of exe_of config_of
  read_facts pid = do
    start_time ← read (start_of w.int_of) w.stat pid
    uid ← read (uid_of w.int_of) w.status pid
    exe ← read exe_of w.exe pid
    config ← read config_of w.cmdline pid
    answer (ok (record { start_time = start_time; uid = uid; exe = exe; config = config }))

  abbrev expected : Option String → String → Bool
  expected none exe = true
  expected (some e) exe = exe == e

  -- The identity from two equal readings.
  abbrev confirmed : ℕ → Option String → Facts → Facts → Checked ProcessIdentity
  confirmed pid exe first second =
      if not (same_facts first second) || not (expected exe first.exe)
      then raise mismatch
      else ok (record {
        pid = pid;
        uid = first.uid;
        start_time = first.start_time;
        exe = first.exe;
        config = first.config;
      })

  unfoldable pub read_twice : ℕ → Option String → Look ProcessIdentity
  unfolding read_facts
  read_twice pid exe = do
    first ← read_facts pid
    second ← read_facts pid
    answer (confirmed pid exe first second)

  unfoldable pub read_identity : ℕ → Option String → Look ProcessIdentity
  unfolding read_twice
  read_identity pid exe =
      if leb pid 1
      then answer (raise (raised state_error "process-invalid"))
      else read_twice pid exe

  abbrev pub same_process : ProcessIdentity → ProcessIdentity → Bool
  same_process current id =
      current.uid == id.uid
      && current.start_time == id.start_time
      && (current.exe == id.exe && current.config == id.config)

  -- `except StateError`
  abbrev pub is_state_error : ErrorClass → Bool
  is_state_error state_error = true
  is_state_error observed_state_error = true
  is_state_error _ = false

  abbrev pub alive_answer : ProcessIdentity → Checked ProcessIdentity → Checked Bool
  alive_answer id (ok current) = ok (same_process current id)
  alive_answer id (raise (app e)) = if is_state_error e.class then ok false else raise (app e)
  alive_answer id (raise e) = raise e

  unfoldable pub alive : ProcessIdentity → Look Bool
  unfolding read_identity
  alive id t = let (r, t') = read_identity id.pid none t in (alive_answer id r, t')

  abbrev gone_state : Option String → Bool
  gone_state none = false
  gone_state (some tail) = elim (words tail) [ [] ↦ false | s ∷ _ ↦ s == "Z" || s == "X" ]

  abbrev exited_at : Reading → Checked Bool
  exited_at (found s) = ok (gone_state (after_last 41 s))
  exited_at missing = ok true
  exited_at failed = ok false
  exited_at undecodable = raise value_error

  unfoldable pub exited : ℕ → Look Bool
  unfolding after_last words
  exited = read exited_at w.stat

  abbrev present : Option ℕ → Bool
  present none = false
  present (some i) = true

  unfoldable pub exists_any : ℕ → Look Bool
  exists_any pid t = (ok (present (w.occupant t pid)), suc t)
