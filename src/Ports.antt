-- ===== src/Ports.antt =====
-- mihomoctl/lifecycle/ports.py: the sockets that /proc/net shows as listening.
-- What the kernel and the socket library do is in `Net`; a table is read at a tick of its own.
pub mod Wait
pub mod Ready
pub mod Free
pub mod Ended
use Prim.Native.Nat.{◌/◌, ◌%◌}
use mihomo_userctl.Base.{
  ℕ, suc, ◌*◌, String, Bool, true, false, not, Option, none, some, List, [], ◌∷◌, ◌++◌, ◌==◌, ◌&&◌,
  ◌||◌, string_eq, nat_eq, ltb, length, if◌then◌else◌, Result, ok, raise, ◌>>=◌,
}
use mihomo_userctl.Errors.{Exception, os_error, value_error, other_error, raised, state_error}
use mihomo_userctl.Text.{words, pieces, is_break, before_first, after_first, front, back}
use mihomo_userctl.Trust.{Checked}
use mihomo_userctl.Identity.{Reading, found, missing, failed, undecodable, nth, Look}

pub record Net : Type 0 where
  -- /proc/net/tcp and /proc/net/tcp6 at a tick
  pub tcp : ℕ → Reading
  pub tcp6 : ℕ → Reading
  -- `int` of a text, in base 16 and in base 10; /proc shows no negative number
  pub int16 : String → Option ℕ
  pub int10 : String → Option ℕ
  -- `inet_ntop`, `inet_aton` and `inet_pton` of the two families
  pub ntop4 : List ℕ → String
  pub ntop6 : List ℕ → String
  pub aton : String → Option (List ℕ)
  pub pton6 : String → Option (List ℕ)

pub record Row : Type 0 where
  pub address : String
  pub port : ℕ
  pub uid : ℕ
  pub inode : String

-- `struct.pack("<I", value)`
unfoldable pub pack : ℕ → Checked (List ℕ)
pack n =
    if ltb n 4294967296
    then ok (n % 256 ∷ n / 256 % 256 ∷ n / 65536 % 256 ∷ n / 16777216 ∷ [])
    else raise other_error

-- A value that Python's handler for `ValueError` and `OSError` may pass over.
abbrev pub Tried : Type 0 → Type 0
Tried A = Checked (Option A)

abbrev pub try_pack : Option ℕ → Tried (List ℕ)
try_pack none = ok none
try_pack (some n) = do bytes ← pack n; ok (some bytes)

abbrev pub then_bytes : Tried (List ℕ) → Tried (List ℕ) → Tried (List ℕ)
then_bytes (ok (some a)) (ok (some b)) = ok (some (a ++ b))
then_bytes (ok (some a)) r = r
then_bytes (ok none) r = ok none
then_bytes (raise e) r = raise e

abbrev pub shown_by : (List ℕ → String) → Tried (List ℕ) → Tried String
shown_by ntop (ok (some bytes)) = ok (some (ntop bytes))
shown_by ntop (ok none) = ok none
shown_by ntop (raise e) = raise e

module _ (net : Net) where
  -- `_v4`
  unfoldable pub v4 : String → Tried String
  unfolding pack
  v4 s = shown_by net.ntop4 (try_pack (net.int16 s))

  abbrev group : ℕ → String → Tried (List ℕ)
  group start s = try_pack (net.int16 (front 8 (back start s)))

  -- `_v6`
  unfoldable pub v6 : String → Tried String
  unfolding pack front back
  v6 s =
      shown_by net.ntop6
        (then_bytes (group 0 s) (then_bytes (group 8 s) (then_bytes (group 16 s) (group 24 s))))

  abbrev normal6 : Option (List ℕ) → Checked String
  normal6 none = raise os_error
  normal6 (some bytes) = ok (net.ntop6 bytes)

  abbrev normal4 : Option (List ℕ) → Option (List ℕ) → Checked String
  normal4 (some bytes) other = ok (net.ntop4 bytes)
  normal4 none other = normal6 other

  -- `_normalize`
  unfoldable pub normalize : String → Checked String
  normalize address =
      if address == "localhost"
      then ok "127.0.0.1"
      else normal4 (net.aton address) (net.pton6 address)

  abbrev row_of : Option String → Option ℕ → Option ℕ → Option String → Option Row
  row_of (some address) (some port) (some uid) (some inode) =
      some (record { address = address; port = port; uid = uid; inode = inode })
  row_of _ _ _ _ = none

  abbrev int10_at : Option String → Option ℕ
  int10_at none = none
  int10_at (some s) = net.int10 s

  abbrev parse_fields :
      (String → Tried String) → Option String → Option String → List String → Tried Row
  parse_fields shown (some local) (some state) fields =
      if ltb (length fields) 10 || not (state == "0A") then ok none else (do
        address ← shown (before_first 58 local)
        ok (
            row_of address (net.int16 (after_first 58 local)) (int10_at (nth 7 fields))
              (nth 9 fields)))
  parse_fields shown _ _ fields = ok none

  -- A line of the table, if it is one of a listening socket.
  unfoldable pub parse_line : (String → Tried String) → String → Tried Row
  unfolding words before_first after_first
  parse_line shown line =
      let fields = words line in parse_fields shown (nth 1 fields) (nth 3 fields) fields

  abbrev has_address : Option String → Row → Checked Bool
  has_address none row = ok true
  has_address (some address) row = do n ← normalize address; ok (row.address == n)

  abbrev has_port : Option ℕ → Row → Bool
  has_port none row = true
  has_port (some port) row = row.port == port

  -- The filters by address and by port.
  unfoldable pub is_match : Option String → Option ℕ → Row → Checked Bool
  unfolding normalize
  is_match address port row = do a ← has_address address row; ok (a && has_port port row)

  abbrev keep_if : Bool → Row → List Row → List Row
  keep_if true row rows = row ∷ rows
  keep_if false row rows = rows

  module _ (address : Option String) (port : Option ℕ) where
    abbrev pub consider : Option Row → Checked (List Row) → Checked (List Row)
    consider none rest = rest
    consider (some row) rest = do
      b ← is_match address port row
      rows ← rest
      ok (keep_if b row rows)

    -- The rows of a table that match, from its lines.
    unfoldable pub rows_of : (String → Tried String) → List String → Checked (List Row)
    unfolding parse_line is_match
    rows_of shown [] = ok []
    rows_of shown (line ∷ lines) =
        let rest = rows_of shown lines in (do row ← parse_line shown line; consider row rest)

    abbrev tail : List String → List String
    tail [] = []
    tail (_ ∷ lines) = lines

    abbrev pub tcp_rows : Reading → Checked (List Row)
    tcp_rows (found s) = rows_of v4 (tail (pieces is_break s))
    tcp_rows undecodable = raise value_error
    tcp_rows _ = raise (raised state_error "listener-inspection-unavailable")

    abbrev pub tcp6_rows : Reading → Checked (List Row)
    tcp6_rows (found s) = rows_of v6 (tail (pieces is_break s))
    tcp6_rows undecodable = raise value_error
    tcp6_rows _ = ok []

    -- `listening_rows`
    unfoldable pub listening_rows : Look (List Row)
    unfolding rows_of v4 v6 pieces
    listening_rows t = (
      (do
        first ← tcp_rows (net.tcp t)
        second ← tcp6_rows (net.tcp6 (suc t))
        ok (first ++ second)),
      suc (suc t),
    )
