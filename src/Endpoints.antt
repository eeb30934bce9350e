-- ===== src/Endpoints.antt =====
-- mihomoctl/endpoints.py: the listening surfaces of a core configuration.
pub mod Parse
pub mod Security
pub mod Asking
pub mod Accepted
pub mod Guard
use Prim.Native.Char.{Char, code}
use Prim.Native.String
use mihomo_userctl.Base.{
  ℕ, String, Bool, true, false, not, Option, none, some, List, [], ◌∷◌, ◌++◌, ◌==◌, ◌&&◌, ◌||◌,
  string_eq, nat_eq, leb, ltb, any, contains, if◌then◌else◌, ok, raise, ◌>>=◌, ◌>>◌, raise_if,
}
use mihomo_userctl.Yaml.{
  Yaml, null, bool, int, negative, text, other, list, mapping, Items, nil, item, Entries, end,
  entry, get, has_only, truthy,
}
use mihomo_userctl.Text.{strip, is_space, is_bracket}
use mihomo_userctl.Errors.{Exception}
use mihomo_userctl.Trust.{Checked, refused}

-- What the interpreter does with a text: `str.lower`, the canonical form of an IP address
-- (`str(ipaddress.ip_address(…))`, `none` for a `ValueError`), and `int(…)` of a text, where
-- negative results are `none` as well.
pub record Python : Type 0 where
  pub lower : String → String
  pub ip_address : String → Option String
  pub int_of : String → Option ℕ

abbrev pub loopbacks : List String
loopbacks = "127.0.0.1" ∷ "::1" ∷ "localhost" ∷ []

abbrev pub proxy_types : List String
proxy_types = "http" ∷ "socks" ∷ "mixed" ∷ []

abbrev pub transparent_types : List String
transparent_types = "redir" ∷ "tproxy" ∷ []

abbrev pub wildcards : List String
wildcards = "0.0.0.0" ∷ "::" ∷ "*" ∷ []

pub record Endpoint : Type 0 where
  pub name : String
  pub source : String
  pub type : String
  pub address : String
  pub port : ℕ
  pub legacy : Bool
  pub authenticated : Bool

pub record Controller : Type 0 where
  pub address : String
  pub port : ℕ
  pub authenticated : Bool

abbrev pub supports_http : Endpoint → Bool
supports_http e = contains ("http" ∷ "mixed" ∷ []) e.type

abbrev pub supports_socks : Endpoint → Bool
supports_socks e = contains ("socks" ∷ "mixed" ∷ []) e.type

abbrev pub invalid : Exception
invalid = refused "config-invalid"

abbrev pub check_address : Bool → Option String → Checked String
check_address allow none = raise invalid
check_address allow (some a) =
    if contains wildcards a
    then raise invalid
    else if contains loopbacks a
    then ok a
    else if allow
    then ok a
    else raise invalid

module _ (py : Python) where
  -- `raw.strip().strip("[]").lower()`
  abbrev pub normal : String → String
  normal s = py.lower (strip is_bracket (strip is_space s))

  unfoldable pub normalize_address : Bool → Yaml → Checked String
  unfolding strip is_space
  normalize_address allow (text raw) =
      if raw == ""
      then raise invalid
      else let a = normal raw in
        check_address allow (py.ip_address (if a == "localhost" then "127.0.0.1" else a))
  normalize_address allow _ = raise invalid

-- `_port(value)`
unfoldable pub port_of : Option Yaml → Checked ℕ
port_of (some (int n)) = if leb 1024 n && leb n 65535 then ok n else raise invalid
port_of _ = raise invalid

abbrev pub is_text : Option Yaml → Bool
is_text (some (text s)) = true
is_text _ = false

-- One entry of `users`; constructing `Credentials` checks nothing.
unfoldable pub is_user : Yaml → Bool
unfolding get has_only
is_user (mapping d) =
    has_only ("username" ∷ "password" ∷ []) d
    && is_text (get d "username")
    && truthy (get d "username")
    && is_text (get d "password")
is_user _ = false

unfoldable pub are_users : Items → Bool
unfolding is_user
are_users nil = true
are_users (item v vs) = is_user v && are_users vs

unfoldable pub parse_users : Option Yaml → Checked Bool
unfolding are_users
parse_users none = ok false
parse_users (some null) = ok false
parse_users (some (list (item v vs))) = if are_users (item v vs) then ok true else raise invalid
parse_users (some _) = raise invalid
