-- ===== src/Rules.antt =====
-- mihomoctl/controller/rules.py: the lines of a custom rule file, once it was read as a text
-- without tabs and NULs.
pub mod Payload
pub mod Whole
pub mod Passed
use Prim.Native.Char.{Char, code}
use Prim.Native.String
use mihomo_userctl.Base.{
  ℕ, zero, suc, String, Bool, true, false, not, Option, none, some, List, [], ◌∷◌, ◌==◌, ◌&&◌, ◌||◌,
  string_eq, nat_eq, ltb, if◌then◌else◌, Result, ok, raise, ◌>>=◌,
}
use mihomo_userctl.Text.{starts, begins, strip, strip_left, is_space}

abbrev pub max_rules : ℕ
max_rules = 100000

abbrev is_char : ℕ → Char → Bool
is_char n c = code c == n

-- `not stripped or stripped.startswith('#')`
unfoldable pub is_skipped : String → Bool
unfolding strip is_space
is_skipped line = strip is_space line == "" || starts (is_char 35) (strip is_space line)

-- What follows the first `-`, before which there are at most that many spaces.
unfoldable pub after_dash : ℕ → String → Option String
after_dash n String.[] = none
after_dash zero (String.◌∷◌ c s) = if is_char 45 c then some s else none
after_dash (suc n) (String.◌∷◌ c s) =
    let rest = after_dash n s in
    if is_char 45 c then some s else if is_char 32 c then rest else none

-- `[ ]+[^#\s].*`
abbrev is_body : String → Bool
is_body s =
    starts (is_char 32) s
    && starts (λ c. not (is_char 35 c) && not (is_space c)) (strip_left (is_char 32) s)

-- `item.startswith(('[', '{', '&', '*', '!', '<<:'))`
abbrev is_unsupported : String → Bool
is_unsupported s =
    begins s "[" || begins s "{" || begins s "&" || begins s "*" || begins s "!" || begins s "<<:"

-- The codes; the text is the label or the kind that a code starts with.
pub data RuleError : Type 0 where
  unsupported_yaml rule_count_limit invalid_payload size_limit must_be_utf8 : RuleError
  unsafe_path symlink_found missing_file wrong_type not_owned wrong_mode : String → RuleError

abbrev limited : ℕ → ℕ → Result RuleError (ℕ × ℕ)
limited payload count =
    if ltb max_rules (suc count) then raise rule_count_limit else ok (payload, suc count)

abbrev item_of : Option String → ℕ → ℕ → Result RuleError (ℕ × ℕ)
item_of none payload count = raise unsupported_yaml
item_of (some s) payload count =
    if not (is_body s)
    then raise unsupported_yaml
    else if is_unsupported (strip_left is_space s)
    then raise unsupported_yaml
    else limited payload count

-- The body of the loop, on the number of headers and of rules so far.
unfoldable pub read_line : String → ℕ × ℕ → Result RuleError (ℕ × ℕ)
unfolding is_skipped after_dash strip_left is_space
read_line line (payload, count) =
    if is_skipped line
    then ok (payload, count)
    else if line == "payload:"
    then ok (suc payload, count)
    else if payload == 1
    then item_of (after_dash 8 line) payload count
    else raise unsupported_yaml

abbrev pub finish : ℕ × ℕ → Result RuleError ℕ
finish (payload, count) =
    if not (payload == 1) || count == 0 then raise invalid_payload else ok count

unfoldable pub read_lines : List String → ℕ × ℕ → Result RuleError ℕ
unfolding read_line
read_lines [] seen = finish seen
read_lines (line ∷ lines) seen = read_line line seen >>= read_lines lines

-- The number of rules of a file.
unfoldable pub count_rules : List String → Result RuleError ℕ
unfolding read_lines
count_rules lines = read_lines lines (0, 0)
