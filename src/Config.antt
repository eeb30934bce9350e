-- ===== src/Config.antt =====
-- mihomoctl/config.py: the document manager.yaml.
-- A mapping of the document is read in its order, and has no key twice, which the loader refuses.
pub mod Parse
pub mod Parts
pub mod Valid
pub mod Accepted
use Prim.Native.Char.{Char}
use Prim.Native.String
use mihomo_userctl.Base.{
  ℕ, String, Bool, true, false, not, Option, none, some, List, [], ◌∷◌, ◌==◌, ◌&&◌, ◌||◌, string_eq,
  nat_eq, leb, ltb, contains, if◌then◌else◌, ok, raise, ◌>>=◌, ◌>>◌, raise_if,
}
use mihomo_userctl.Yaml.{
  Yaml, null, text, int, bool, negative, other, float_one, list, mapping, Items, nil, item, Entries,
  get, has_only, truthy,
}
use mihomo_userctl.Text.{
  strip, is_space, is_bracket, some_char, all_chars, starts, begins, ends, is_digit, is_lower,
  is_alnum, is_one_of, is_control, split,
}
use mihomo_userctl.Files.{FilePath}
use mihomo_userctl.Trust.{Checked}
use mihomo_userctl.Endpoints.{invalid, wildcards}

pub record Profile : Type 0 where
  pub name : String
  pub http_listener : Option String
  pub socks_listener : Option String
  pub credentials_file : Option String
  pub no_proxy : List String
  pub timeout : ℕ

pub record Binding : Type 0 where
  pub name : String
  pub profile : String
  pub adapter : String
  pub target : Option String
  pub connect_host : Option String

pub record TunSettings : Type 0 where
  pub enabled : Bool
  pub device : String

pub record CoreSettings : Type 0 where
  pub binary : Option String
  pub config : Option String
  pub backend : String

pub record Manager : Type 0 where
  pub core : CoreSettings
  pub default_profile : String
  pub profiles : List Profile
  pub bindings : List Binding
  pub tun : TunSettings
  pub allow_non_loopback : List String

-- What `pathlib` does with a text, and `Path.resolve`, which follows symbolic links.
pub record Paths : Type 0 where
  pub of : String → FilePath
  pub resolve : FilePath → FilePath

abbrev pub longer : String → ℕ → Bool
longer s n = ltb n (String.count s)

-- HealthSettings.parse
abbrev pub timeout_of : Option Yaml → Checked ℕ
timeout_of none = ok 10
timeout_of (some (int n)) = if leb 1 n && leb n 120 then ok n else raise invalid
timeout_of (some _) = raise invalid

unfoldable pub parse_health : Option Yaml → Checked ℕ
unfolding get has_only
parse_health none = ok 10
parse_health (some null) = ok 10
parse_health (some (mapping d)) =
    if has_only ("timeout" ∷ []) d then timeout_of (get d "timeout") else raise invalid
parse_health (some _) = raise invalid

-- TunSettings.parse
abbrev pub enabled_of : Bool → Option Yaml → Checked Bool
enabled_of system none = ok false
enabled_of system (some (bool b)) = if b && not system then raise invalid else ok b
enabled_of system (some _) = raise invalid

abbrev pub is_device : String → Bool
is_device s =
    not (s == "")
    && not (longer s 15)
    && all_chars (λ c. is_alnum c || is_one_of (95 ∷ 45 ∷ []) c) s

abbrev pub device_of : Option Yaml → Checked String
device_of none = ok "mihomo0"
device_of (some (text s)) = if is_device s then ok s else raise invalid
device_of (some _) = raise invalid

unfoldable pub parse_tun : Bool → Option Yaml → Checked TunSettings
unfolding get has_only all_chars
parse_tun system none = ok (record { enabled = false; device = "mihomo0" })
parse_tun system (some null) = ok (record { enabled = false; device = "mihomo0" })
parse_tun system (some (mapping d)) = do
  raise_if (not (has_only ("enabled" ∷ "device" ∷ []) d)) invalid
  enabled ← enabled_of system (get d "enabled")
  device ← device_of (get d "device")
  ok (record { enabled = enabled; device = device })
parse_tun system (some _) = raise invalid

-- _NAME
unfoldable pub is_name : String → Bool
unfolding all_chars
is_name s =
    starts (λ c. is_digit c || is_lower c) s
    && all_chars (λ c. is_digit c || is_lower c || is_one_of (45 ∷ []) c) s
    && not (longer s 64)

unfoldable pub require_name : String → Checked String
unfolding is_name
require_name s = if is_name s then ok s else raise invalid

-- The first alternative of _NO_PROXY after its optional prefix, without a port and with one.
abbrev pub is_host : String → Bool
is_host s =
    starts is_alnum s
    && all_chars (λ c. is_alnum c || is_one_of (46 ∷ 95 ∷ 45 ∷ []) c) s
    && (not (ends s ".") && not (ends s "_") && not (ends s "-"))

abbrev is_port : String → Bool
is_port s = not (s == "") && not (longer s 5) && all_chars is_digit s

abbrev is_host_port : List String → Bool
is_host_port (host ∷ []) = is_host host
is_host_port (host ∷ port ∷ []) = is_host host && is_port port
is_host_port _ = false

-- A text of the first alternative has the prefix `*.` or is one of the second alternative, too.
abbrev after_star : String → String
after_star String.[] = ""
after_star (String.◌∷◌ c String.[]) = ""
after_star (String.◌∷◌ c (String.◌∷◌ d s)) = s

unfoldable pub is_no_proxy : String → Bool
unfolding all_chars ends split
is_no_proxy s =
    (not (s == "") && all_chars (λ c. is_alnum c || is_one_of (46 ∷ 58 ∷ 95 ∷ 45 ∷ []) c) s)
    || (begins s "*." && is_host_port (split 58 (after_star s)))

abbrev is_target : String → Bool
is_target s =
    ends s ".service"
    && longer s 8
    && all_chars (λ c. is_alnum c || is_one_of (95 ∷ 46 ∷ 64 ∷ 58 ∷ 92 ∷ 45 ∷ []) c) s

unfoldable pub is_unit_name : String → Bool
unfolding all_chars ends
is_unit_name s = is_target s

unfoldable pub is_connect_host : String → Bool
unfolding all_chars strip
is_connect_host s =
    not (s == "")
    && not (longer s 253)
    && all_chars (λ c. is_alnum c || is_one_of (46 ∷ 58 ∷ 91 ∷ 93 ∷ 45 ∷ []) c) s
    && not (contains wildcards (strip is_bracket s))

module _ (paths : Paths) where
  -- `_require_abs`
  unfoldable pub is_safe_path : String → Bool
  unfolding some_char
  is_safe_path s =
      begins s "/" && not (contains (paths.of s).parts "..") && not (some_char is_control s)

  unfoldable pub require_abs : Yaml → Checked String
  unfolding is_safe_path
  require_abs (text s) = if is_safe_path s then ok s else raise invalid
  require_abs _ = raise invalid
