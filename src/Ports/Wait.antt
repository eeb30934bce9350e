-- ===== src/Ports/Wait.antt =====
-- `owns_listener` of mihomoctl/identity.py, and `port_occupied`, `check_ports_free` and
-- `wait_listening` of mihomoctl/lifecycle/ports.py.
use mihomo_userctl.Base.{
  ℕ, zero, suc, ◌+◌, String, Bool, true, false, not, Option, none, some, List, [], ◌∷◌, ◌==◌, ◌&&◌,
  string_eq, nat_eq, ltb, contains, all, if◌then◌else◌, ok, raise,
}
use mihomo_userctl.Errors.{Exception, raised, observed_state_error}
use mihomo_userctl.Text.{begins, ends, back}
use mihomo_userctl.Endpoints.{Endpoint}
use mihomo_userctl.Identity.{World, Reading, found, Look, ◌>>=◌, answer, ProcessIdentity, alive}
use mihomo_userctl.Ports.{Net, Row, listening_rows}

abbrev pub is_empty {ℓ} : {A : Type ℓ} → List A → Bool
is_empty [] = true
is_empty (x ∷ xs) = false

-- `s[:-1]`
unfoldable pub but_last : String → String
but_last String.[] = ""
but_last (String.◌∷◌ c String.[]) = ""
but_last (String.◌∷◌ c (String.◌∷◌ d s)) = String.◌∷◌ c (but_last (String.◌∷◌ d s))

-- The inode that an entry of /proc/PID/fd leads to, if it is a socket.
abbrev pub socket_of : Reading → Option String
socket_of (found s) = if begins s "socket:[" && ends s "]" then some (but_last (back 8 s)) else none
socket_of _ = none

abbrev pub add_inode : Option String → List String → List String
add_inode none inodes = inodes
add_inode (some inode) inodes = inode ∷ inodes

abbrev pub port_conflict : Exception
port_conflict = raised observed_state_error "port-conflict"

abbrev pub not_verified : Exception
not_verified = raised observed_state_error "start-not-verified"

-- The row is a socket of the user that the process holds.
abbrev pub is_held : ℕ → List String → Row → Bool
is_held uid inodes row = row.uid == uid && contains inodes row.inode

module _ (w : World) (net : Net) where
  abbrev fds_of : ℕ → Option ℕ → Option (List ℕ)
  fds_of t none = none
  fds_of t (some i) = w.fds t i

  abbrev pub list_fds : ℕ → Look (Option (List ℕ))
  list_fds pid t = (ok (fds_of t (w.occupant t pid)), suc t)

  abbrev fd_shown : ℕ → ℕ → Option ℕ → Reading
  fd_shown n t none = Reading.missing
  fd_shown n t (some i) = w.fd_target t i n

  abbrev pub read_fd : ℕ → ℕ → Look (Option String)
  read_fd pid n t = (ok (socket_of (fd_shown n t (w.occupant t pid))), suc t)

  -- The inodes of the sockets, one `readlink` after the other.
  unfoldable pub inodes_of : ℕ → List ℕ → Look (List String)
  unfolding ends back but_last
  inodes_of pid [] = answer (ok [])
  inodes_of pid (n ∷ ns) =
      let rest = inodes_of pid ns in
      (do inode ← read_fd pid n; inodes ← rest; answer (ok (add_inode inode inodes)))

  -- The last conditions of `owns_listener`, in their order.
  abbrev pub held_alive : ProcessIdentity → List String → List Row → Look Bool
  held_alive id inodes rows =
      if not (is_empty rows) && all (is_held id.uid inodes) rows
      then alive w id
      else answer (ok false)

  abbrev pub owns_by : ProcessIdentity → String → ℕ → Option (List ℕ) → Look Bool
  owns_by id address port none = answer (ok false)
  owns_by id address port (some ns) = do
    inodes ← inodes_of id.pid ns
    rows ← listening_rows net (some address) (some port)
    held_alive id inodes rows

  abbrev pub owns_alive : ProcessIdentity → String → ℕ → Bool → Look Bool
  owns_alive id address port false = answer (ok false)
  owns_alive id address port true = do ns ← list_fds id.pid; owns_by id address port ns

  unfoldable pub owns_listener : ProcessIdentity → String → ℕ → Look Bool
  unfolding alive inodes_of listening_rows
  owns_listener id address port = do a ← alive w id; owns_alive id address port a

  -- `port_occupied`
  unfoldable pub port_occupied : String → ℕ → Look Bool
  unfolding listening_rows
  port_occupied address port = do
    rows ← listening_rows net (some address) (some port)
    answer (ok (not (is_empty rows)))

  abbrev pub of_user : ℕ → List Row → List Row
  of_user uid [] = []
  of_user uid (row ∷ rows) = if row.uid == uid then row ∷ of_user uid rows else of_user uid rows

  -- `satisfied` of `wait_listening`, for a process that is expected
  unfoldable pub satisfied : ℕ → ProcessIdentity → Endpoint → Look Bool
  unfolding owns_listener listening_rows
  satisfied uid id e = do
    rows ← listening_rows net (some e.address) (some e.port)
    if is_empty (of_user uid rows) then answer (ok false) else owns_listener id e.address e.port

  abbrev pub keep_unless : Bool → Endpoint → List Endpoint → List Endpoint
  keep_unless true e es = es
  keep_unless false e es = e ∷ es

  -- One round of the loop: the endpoints that are still pending.
  unfoldable pub still_pending : ℕ → ProcessIdentity → List Endpoint → Look (List Endpoint)
  unfolding satisfied
  still_pending uid id [] = answer (ok [])
  still_pending uid id (e ∷ es) =
      let rest = still_pending uid id es in
      (do b ← satisfied uid id e; pending ← rest; answer (ok (keep_unless b e pending)))

  abbrev pub clock : Look ℕ
  clock t = (ok (w.monotonic t), suc t)

  abbrev pub nap : ℕ → Look Unit
  nap span t = (ok tt, w.nap span t)

  -- The loop of `wait_listening`; `none` where the fuel ends.
  unfoldable pub wait_from : ℕ → ℕ → ProcessIdentity → ℕ → List Endpoint → Look (Option Unit)
  unfolding still_pending
  wait_from zero uid id deadline pending = answer (ok none)
  wait_from (suc fuel) uid id deadline pending =
      let again = wait_from fuel uid id deadline in
      (do
        now ← clock
        if ltb now deadline
            then (do
              rest ← still_pending uid id pending
              if is_empty rest then answer (ok (some tt)) else (do _ ← nap 100; again rest))
            else answer (raise not_verified))

  -- `wait_listening`, with its timeout in milliseconds
  unfoldable pub wait_listening : ℕ → List Endpoint → ℕ → ℕ → ProcessIdentity → Look (Option Unit)
  unfolding wait_from
  wait_listening fuel endpoints uid span id = do
    now ← clock
    wait_from fuel uid id (now + span) endpoints

  module _ (can_bind : ℕ → String → ℕ → Bool) where
    abbrev pub probe : Bool → Endpoint → Look Bool
    probe true e t = (ok true, t)
    probe false e t = (ok (not (can_bind t e.address e.port)), suc t)

    -- Whether the address of an endpoint is taken: a socket listens, or the probe cannot bind.
    unfoldable pub unavailable : Endpoint → Look Bool
    unfolding listening_rows
    unavailable e = do
      rows ← listening_rows net (some e.address) (some e.port)
      probe (not (is_empty rows)) e

    unfoldable pub occupied : List Endpoint → Look (List Endpoint)
    unfolding unavailable
    occupied [] = answer (ok [])
    occupied (e ∷ es) =
        let rest = occupied es in
        (do b ← unavailable e; taken ← rest; answer (ok (keep_unless (not b) e taken)))

    abbrev pub free_if : Bool → Look Unit
    free_if true = answer (ok tt)
    free_if false = answer (raise port_conflict)

    unfoldable pub check_ports_free : List Endpoint → Look Unit
    unfolding occupied
    check_ports_free es = do taken ← occupied es; free_if (is_empty taken)
