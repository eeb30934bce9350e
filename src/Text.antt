-- ===== src/Text.antt =====
-- The methods of Python's `str` that the program uses, and sets of characters.
use Prim.Native.Char.{Char, code}
use mihomo_userctl.Base.{
  ℕ, zero, suc, String, Bool, true, false, Option, none, some, List, [], ◌∷◌, ◌==◌, ◌&&◌, ◌||◌,
  string_eq, nat_eq, leb, contains, if◌then◌else◌,
}

-- `str.strip()` and `str.strip('[]')`, by the test for the characters that go.
unfoldable pub strip_left : (Char → Bool) → String → String
strip_left gone String.[] = ""
strip_left gone (String.◌∷◌ c s) =
    let rest = strip_left gone s in if gone c then rest else String.◌∷◌ c s

abbrev kept : Bool → Char → String → String
kept true c String.[] = ""
kept _ c rest = String.◌∷◌ c rest

unfoldable pub strip_right : (Char → Bool) → String → String
strip_right gone String.[] = ""
strip_right gone (String.◌∷◌ c s) = kept (gone c) c (strip_right gone s)

unfoldable pub strip : (Char → Bool) → String → String
unfolding strip_left strip_right
strip gone s = strip_right gone (strip_left gone s)

abbrev pub between : ℕ → ℕ → Char → Bool
between a b c = leb a (code c) && leb (code c) b

-- `str.isspace()` of one character
unfoldable pub is_space : Char → Bool
is_space c =
    between 9 13 c
    || between 28 32 c
    || between 0x2000 0x200A c
    || between 0x2028 0x2029 c
    || contains (0x85 ∷ 0xA0 ∷ 0x1680 ∷ 0x202F ∷ 0x205F ∷ 0x3000 ∷ []) (code c)

abbrev pub is_bracket : Char → Bool
is_bracket c = contains (91 ∷ 93 ∷ []) (code c)

unfoldable pub some_char : (Char → Bool) → String → Bool
some_char t String.[] = false
some_char t (String.◌∷◌ c s) = t c || some_char t s

-- Every character passes the test.
unfoldable pub all_chars : (Char → Bool) → String → Bool
all_chars t String.[] = true
all_chars t (String.◌∷◌ c s) = t c && all_chars t s

abbrev pub starts : (Char → Bool) → String → Bool
starts t String.[] = false
starts t (String.◌∷◌ c s) = t c

-- `s.startswith(t)`
abbrev pub begins : String → String → Bool
begins s String.[] = true
begins String.[] (String.◌∷◌ d t) = false
begins (String.◌∷◌ c s) (String.◌∷◌ d t) = code c == code d && begins s t

-- `s.endswith(t)`
unfoldable pub ends : String → String → Bool
ends String.[] t = t == ""
ends (String.◌∷◌ c s) t = String.◌∷◌ c s == t || ends s t

-- The sets of characters in the program's regular expressions.
abbrev pub is_digit : Char → Bool
is_digit = between 48 57

abbrev pub is_lower : Char → Bool
is_lower = between 97 122

abbrev pub is_alnum : Char → Bool
is_alnum c = is_digit c || is_lower c || between 65 90 c

abbrev pub is_one_of : List ℕ → Char → Bool
is_one_of codes c = contains codes (code c)

-- Control characters: below a space, or DEL.
abbrev pub is_control : Char → Bool
is_control c = leb (code c) 31 || code c == 127

abbrev put_first : Char → List String → List String
put_first c [] = String.◌∷◌ c "" ∷ []
put_first c (w ∷ ws) = String.◌∷◌ c w ∷ ws

-- `s.split(sep)` at one character
unfoldable pub split : ℕ → String → List String
split sep String.[] = "" ∷ []
split sep (String.◌∷◌ c s) =
    let rest = split sep s in if code c == sep then "" ∷ rest else put_first c rest

-- The pieces between the characters that pass the test.
unfoldable pub pieces : (Char → Bool) → String → List String
pieces sep String.[] = "" ∷ []
pieces sep (String.◌∷◌ c s) =
    let rest = pieces sep s in if sep c then "" ∷ rest else put_first c rest

abbrev pub nonempty : List String → List String
nonempty [] = []
nonempty (w ∷ ws) = if w == "" then nonempty ws else w ∷ nonempty ws

-- `s.split()`
unfoldable pub words : String → List String
unfolding pieces is_space
words s = nonempty (pieces is_space s)

-- `pieces is_break s` is `s.splitlines()`, with an empty line more at its end and within a `\r\n`;
-- the callers pass over empty lines.
abbrev pub is_break : Char → Bool
is_break c = between 10 13 c || between 28 30 c || contains (0x85 ∷ 0x2028 ∷ 0x2029 ∷ []) (code c)

abbrev or_else : Option String → Option String → Option String
or_else none b = b
or_else (some a) b = some a

-- `s.rsplit(sep, 1)[1]`, if there is a separator
unfoldable pub after_last : ℕ → String → Option String
after_last sep String.[] = none
after_last sep (String.◌∷◌ c s) =
    or_else (after_last sep s) (if code c == sep then some s else none)

-- `s.partition(sep)`: the text before the first separator, and the text after it
unfoldable pub before_first : ℕ → String → String
before_first sep String.[] = ""
before_first sep (String.◌∷◌ c s) =
    let rest = before_first sep s in if code c == sep then "" else String.◌∷◌ c rest

unfoldable pub after_first : ℕ → String → String
after_first sep String.[] = ""
after_first sep (String.◌∷◌ c s) = let rest = after_first sep s in if code c == sep then s else rest

-- `s[:n]` and `s[n:]`
unfoldable pub front : ℕ → String → String
front zero s = ""
front (suc n) String.[] = ""
front (suc n) (String.◌∷◌ c s) = String.◌∷◌ c (front n s)

unfoldable pub back : ℕ → String → String
back zero s = s
back (suc n) String.[] = ""
back (suc n) (String.◌∷◌ c s) = back n s
