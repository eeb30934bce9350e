-- ===== src/Config/Parse.antt =====
-- `_parse_profile`, `_parse_binding`, `parse_manager` and `_check_scope_paths` of mihomoctl/config.py.
use mihomo_userctl.Base.{
  ℕ, String, Bool, true, false, not, Option, none, some, List, [], ◌∷◌, ◌==◌, ◌&&◌, ◌||◌, string_eq,
  nat_eq, map, ltb, length, contains, any, if◌then◌else◌, ok, raise, ◌>>=◌, ◌>>◌, raise_if,
}
use mihomo_userctl.Yaml.{
  Yaml, null, text, int, bool, float_one, list, mapping, Items, nil, item, Entries, end, entry, get,
  has_only, truthy, section,
}
use mihomo_userctl.Text.{some_char, is_space, begins}
use mihomo_userctl.Files.{FilePath, relative_to}
use mihomo_userctl.Trust.{Checked}
use mihomo_userctl.Endpoints.{invalid}
use mihomo_userctl.Config.{
  Profile, Binding, CoreSettings, Manager, Paths, longer, parse_health, parse_tun, is_name,
  require_name, is_no_proxy, is_unit_name, is_connect_host, require_abs,
}

-- A listener that a profile names.
abbrev pub is_listener : String → Bool
is_listener s = not (s == "") && not (longer s 64) && not (some_char is_space s)

unfoldable pub listener_of : Option Yaml → Checked (Option String)
unfolding some_char is_space
listener_of none = ok none
listener_of (some null) = ok none
listener_of (some (text s)) = if is_listener s then ok (some s) else raise invalid
listener_of (some _) = raise invalid

abbrev pub default_no_proxy : List String
default_no_proxy = "localhost" ∷ "127.0.0.1" ∷ "::1" ∷ []

abbrev pub is_entry : String → Bool
is_entry s = not (s == "") && not (longer s 253) && is_no_proxy s

unfoldable pub no_proxy_items : Items → Checked (List String)
unfolding is_no_proxy
no_proxy_items nil = ok []
no_proxy_items (item (text s) vs) =
    let rest = no_proxy_items vs in
    if is_entry s then (do ss ← rest; ok (s ∷ ss)) else raise invalid
no_proxy_items (item _ vs) = raise invalid

abbrev pub at_most : {A : Type 0} → ℕ → List A → Checked (List A)
at_most n xs = if ltb n (length xs) then raise invalid else ok xs

unfoldable pub no_proxy_of : Option Yaml → Checked (List String)
unfolding no_proxy_items
no_proxy_of none = ok default_no_proxy
no_proxy_of (some null) = ok default_no_proxy
no_proxy_of (some (list (item v vs))) = do ss ← no_proxy_items (item v vs); at_most 128 ss
no_proxy_of (some _) = raise invalid

abbrev pub is_set : Option String → Bool
is_set none = false
is_set (some s) = true

module _ (paths : Paths) where
  -- A path under a key that may be missing.
  unfoldable pub path_of : Option Yaml → Checked (Option String)
  unfolding require_abs
  path_of none = ok none
  path_of (some null) = ok none
  path_of (some v) = do s ← require_abs paths v; ok (some s)

  unfoldable pub parse_profile : String → Yaml → Checked Profile
  unfolding require_name has_only get listener_of path_of no_proxy_of parse_health
  parse_profile key (mapping d) = do
    name ← require_name key
    raise_if
        (not (
          has_only
            ("http_listener" ∷ "socks_listener" ∷ "credentials_file" ∷ "no_proxy" ∷ "health" ∷ [])
            d))
        invalid
    http ← listener_of (get d "http_listener")
    socks ← listener_of (get d "socks_listener")
    raise_if (not (is_set http) && not (is_set socks)) invalid
    credentials ← path_of (get d "credentials_file")
    no_proxy ← no_proxy_of (get d "no_proxy")
    timeout ← parse_health (get d "health")
    ok (record {
      name = name;
      http_listener = http;
      socks_listener = socks;
      credentials_file = credentials;
      no_proxy = no_proxy;
      timeout = timeout;
    })
  parse_profile key _ = raise invalid

  unfoldable pub parse_profiles : Entries → Checked (List Profile)
  unfolding parse_profile
  parse_profiles end = ok []
  parse_profiles (entry name v d) = do p ← parse_profile name v; ps ← parse_profiles d; ok (p ∷ ps)

abbrev pub text_of : Option Yaml → Checked String
text_of (some (text s)) = ok s
text_of _ = raise invalid

abbrev pub optional : (String → Bool) → Option Yaml → Checked (Option String)
optional good none = ok none
optional good (some null) = ok none
optional good (some (text s)) = if good s then ok (some s) else raise invalid
optional good (some _) = raise invalid

abbrev adapters : List String
adapters = "exec" ∷ "systemd" ∷ "docker" ∷ "kubernetes" ∷ "supervisor" ∷ "pm2" ∷ "ci" ∷ []

abbrev pub is_adapter : String → Bool
is_adapter s = not (s == "") && not (longer s 32) && (contains adapters s || is_name s)

-- The target of the adapter: `systemd` needs the name of a unit.
unfoldable pub target_of : String → Option Yaml → Checked (Option String)
unfolding is_unit_name
target_of adapter v =
    if adapter == "systemd"
    then (do s ← text_of v; if is_unit_name s then ok (some s) else raise invalid)
    else optional (λ s. true) v

unfoldable pub parse_binding : List String → String → Yaml → Checked Binding
unfolding require_name has_only get target_of is_connect_host
parse_binding profiles key (mapping d) = do
  name ← require_name key
  raise_if (not (has_only ("profile" ∷ "adapter" ∷ "target" ∷ "connect_host" ∷ []) d)) invalid
  profile ← text_of (get d "profile")
  raise_if (not (contains profiles profile)) invalid
  adapter ← text_of (get d "adapter")
  raise_if (not (is_adapter adapter)) invalid
  target ← target_of adapter (get d "target")
  host ← optional is_connect_host (get d "connect_host")
  ok (record {
    name = name;
    profile = profile;
    adapter = adapter;
    target = target;
    connect_host = host;
  })
parse_binding profiles key _ = raise invalid

unfoldable pub parse_bindings : List String → Entries → Checked (List Binding)
unfolding parse_binding
parse_bindings profiles end = ok []
parse_bindings profiles (entry name v d) = do
  b ← parse_binding profiles name v
  bs ← parse_bindings profiles d
  ok (b ∷ bs)

abbrev pub some_section : Option Entries → Checked Entries
some_section none = raise invalid
some_section (some d) = ok d

-- `data.get("version") != VERSION`, where Python takes 1.0 and `true` to equal 1.
abbrev pub is_version : Option Yaml → Bool
is_version (some (int n)) = n == 1
is_version (some (bool b)) = b
is_version (some float_one) = true
is_version _ = false

abbrev pub backend_of : Bool → Option Yaml → Checked String
backend_of true v = ok "systemd"
backend_of false none = ok "process"
backend_of false (some (text s)) =
    if contains ("process" ∷ "systemd" ∷ []) s then ok s else raise invalid
backend_of false (some _) = raise invalid

abbrev pub default_of : Option Yaml → Checked String
default_of none = ok "default"
default_of (some (text s)) = ok s
default_of (some _) = raise invalid

unfoldable pub addresses : Items → Checked (List String)
addresses nil = ok []
addresses (item (text s) vs) =
    let rest = addresses vs in
    if not (s == "") && not (longer s 45) then (do ss ← rest; ok (s ∷ ss)) else raise invalid
addresses (item _ vs) = raise invalid

abbrev pub listed_addresses : Option Yaml → Checked (List String)
listed_addresses (some (list vs)) = addresses vs
listed_addresses _ = raise invalid

unfoldable pub allow_non_loopback : Bool → Option Yaml → Checked (List String)
unfolding addresses
allow_non_loopback system v =
    if truthy v then (if system then listed_addresses v else raise invalid) else ok []

abbrev pub is_empty : Entries → Bool
is_empty end = true
is_empty (entry _ _ _) = false

module _ (paths : Paths) where
  -- `core[key]` where it is true
  abbrev pub core_path : Option Yaml → Checked (Option String)
  core_path none = ok none
  core_path (some v) =
      if truthy (some v) then (do s ← require_abs paths v; ok (some s)) else ok none

  unfoldable pub parse_core : Bool → Entries → Checked CoreSettings
  unfolding has_only get require_abs
  parse_core system d = do
    raise_if (not (has_only ("binary" ∷ "config" ∷ "backend" ∷ "adopted" ∷ []) d)) invalid
    binary ← core_path (get d "binary")
    config ← core_path (get d "config")
    backend ← backend_of system (get d "backend")
    ok (record { binary = binary; config = config; backend = backend })

  abbrev pub names : List Profile → List String
  names ps = map (λ (p : Profile). p.name) ps

  unfoldable pub parse_document : Bool → Entries → Checked Manager
  unfolding has_only get parse_core parse_profiles parse_bindings parse_tun allow_non_loopback
  parse_document system d = do
    raise_if
        (not (
          has_only
            ("version" ∷ "core" ∷ "default_profile" ∷ "profiles" ∷ "bindings" ∷ "tun"
              ∷ "allow_non_loopback" ∷ [])
            d))
        invalid
    raise_if (not (is_version (get d "version"))) invalid
    core ← some_section (section d "core")
    settings ← parse_core system core
    default ← default_of (get d "default_profile")
    found ← some_section (section d "profiles")
    raise_if (is_empty found) invalid
    profiles ← parse_profiles paths found
    raise_if (not (contains (names profiles) default)) invalid
    bound ← some_section (section d "bindings")
    bindings ← parse_bindings (names profiles) bound
    tun ← parse_tun system (get d "tun")
    allowed ← allow_non_loopback system (get d "allow_non_loopback")
    ok (record {
      core = settings;
      default_profile = default;
      profiles = profiles;
      bindings = bindings;
      tun = tun;
      allow_non_loopback = allowed;
    })

  module _ (system : Bool) (config_root : FilePath) (private_roots : List FilePath) where
    -- `scope.is_private_user_path(path)`
    abbrev pub is_private : String → Bool
    is_private s =
        any (λ root. relative_to (paths.resolve (paths.of s)) (paths.resolve root)) private_roots

    abbrev pub is_in_scope : Option String → Bool
    is_in_scope none = true
    is_in_scope (some s) =
        if system
        then relative_to (paths.of s) config_root
        else not (begins s "/etc/mihomoctl" || begins s "/var/lib/mihomoctl") && is_private s

    unfoldable pub check_scope_paths : List Profile → Checked Unit
    check_scope_paths [] = ok tt
    check_scope_paths (p ∷ ps) = do
      raise_if (not (is_in_scope p.credentials_file)) invalid
      check_scope_paths ps

    -- `parse_manager(data, system_scope, scope)` for a scope
    unfoldable pub parse_manager : Yaml → Checked Manager
    unfolding parse_document check_scope_paths
    parse_manager (mapping d) = do
      manager ← parse_document system d
      check_scope_paths manager.profiles
      ok manager
    parse_manager _ = raise invalid
