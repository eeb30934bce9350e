-- ===== src/Examples/Configurations.antt =====
-- A core configuration, a rule file and a manager document that are accepted.
use mihomo_userctl.Base.{
  ◌≤◌, Option, if◌then◌else◌, ◌==◌, String, ◌≡◌, refl, Bool, true, false, none, some, List, [], ◌∷◌,
  ok, string_eq, nat_eq, ◌↔◌, All, contains,
}
use mihomo_userctl.Yaml.{Yaml, null, int, text, mapping, Items, nil, item, Entries, entry}
use mihomo_userctl.Endpoints.{
  Python, Endpoint, normalize_address, parse_users, port_of, supports_http, supports_socks,
}
use mihomo_userctl.Endpoints.Parse.{listed, parse_endpoints}
use mihomo_userctl.Endpoints.Accepted.{IsAccepted, document_of, parse_endpoints-IsAccepted}
use mihomo_userctl.Endpoints.Guard.{
  IsServed, IsKept, as_entries, forbidden_keys, validate_profile_listeners,
  validate_profile_listeners_ok, assert_security_envelope, assert_security_envelope_ok,
}
use mihomo_userctl.Config.{Paths, Manager}
use mihomo_userctl.Config.Parse.{parse_manager, parse_document}
use mihomo_userctl.Config.Accepted.{IsManager, IsInScope, parse_manager_accepts}
use mihomo_userctl.Rules.{max_rules, count_rules, is_skipped}
use mihomo_userctl.Rules.Payload.{HasPayload, count_rules-HasPayload}
use mihomo_userctl.Files.{FilePath, path_eq}

-- An interpreter that knows the addresses of the examples.
abbrev known_address : String → Option String
known_address s = if contains ("127.0.0.1" ∷ "10.0.0.5" ∷ []) s then some s else none

abbrev python : Python
python = record { lower = λ s. s; ip_address = known_address; int_of = λ s. some 9090 }

abbrev admin : Items
admin =
    item (mapping (entry "username" (text "admin") (entry "password" (text "secret") Entries.end)))
      nil

abbrev mixed : Entries
mixed = entry "name" (text "main") (
    entry "type" (text "mixed")
      (entry "port" (int 7890) (entry "users" (Yaml.list admin) Entries.end)))

abbrev cfg : Yaml
cfg = mapping (entry "listeners" (Yaml.list (item (mapping mixed) nil)) Entries.end)

abbrev main : Endpoint
main = listed "main" "mixed" "127.0.0.1" 7890 true

parse_endpoints-IsAccepted_example : IsAccepted python false [] (document_of cfg) (main ∷ []) none
unfolding parse_endpoints normalize_address parse_users port_of string_eq nat_eq
parse_endpoints-IsAccepted_example =
    parse_endpoints-IsAccepted python false [] cfg (main ∷ []) none refl

validate_profile_listeners_ok_example :
    IsServed (main ∷ []) supports_http (some "main") (some main)
    × IsServed (main ∷ []) supports_socks none none
unfolding validate_profile_listeners string_eq
validate_profile_listeners_ok_example =
    validate_profile_listeners_ok (main ∷ []) (some "main") none (some main) none refl

abbrev same_text : Yaml → Yaml → Bool
same_text (text a) (text b) = a == b
same_text null null = true
same_text _ _ = false

assert_security_envelope_ok_example :
    (assert_security_envelope same_text cfg cfg ≡ ok tt)
    ↔ All (IsKept same_text (as_entries cfg) (as_entries cfg)) forbidden_keys
assert_security_envelope_ok_example = assert_security_envelope_ok same_text cfg cfg

abbrev rules : List String
rules = "# own rules" ∷ "payload:" ∷ "  - DOMAIN,example.org" ∷ "" ∷ []

count_rules-HasPayload_example : HasPayload rules 1 × (1 ≤ 1) × (1 ≤ max_rules)
unfolding count_rules is_skipped string_eq nat_eq
count_rules-HasPayload_example = count_rules-HasPayload rules 1 refl

abbrev paths : Paths
paths = record {
  of = λ s. record { absolute = true; parts = "secret" ∷ "u" ∷ [] };
  resolve = λ p. p;
}

abbrev home_root : FilePath
home_root = record { absolute = true; parts = "u" ∷ [] }

abbrev main_profile : Yaml
main_profile =
    mapping (
      entry "http_listener" (text "main") (entry "credentials_file" (text "/u/secret") Entries.end))

abbrev shell : Yaml
shell = mapping (entry "profile" (text "default") (entry "adapter" (text "exec") Entries.end))

abbrev document : Yaml
document = mapping (
    entry "version" (int 1) (
      entry "profiles" (mapping (entry "default" main_profile Entries.end))
        (entry "bindings" (mapping (entry "sh" shell Entries.end)) Entries.end)))

abbrev managed : Manager
managed = record {
  core = record { binary = none; config = none; backend = "process" };
  default_profile = "default";
  profiles =
      record {
        name = "default";
        http_listener = some "main";
        socks_listener = none;
        credentials_file = some "/u/secret";
        no_proxy = "localhost" ∷ "127.0.0.1" ∷ "::1" ∷ [];
        timeout = 10;
      }
      ∷ [];
  bindings =
      record {
        name = "sh";
        profile = "default";
        adapter = "exec";
        target = none;
        connect_host = none;
      }
      ∷ [];
  tun = record { enabled = false; device = "mihomo0" };
  allow_non_loopback = [];
}

parse_manager_accepts_example :
    IsManager paths false managed
    × All (IsInScope paths false home_root (home_root ∷ [])) managed.profiles
unfolding parse_manager parse_document path_eq string_eq nat_eq
parse_manager_accepts_example =
    parse_manager_accepts paths false home_root (home_root ∷ []) document managed refl
