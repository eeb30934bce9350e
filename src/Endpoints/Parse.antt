-- ===== src/Endpoints/Parse.antt =====
-- `parse_endpoints` of mihomoctl/endpoints.py and `_parse_controller`.
use Prim.Native.Char.{Char, code}
use Prim.Native.String
use mihomo_userctl.Base.{
  ℕ, String, Bool, true, false, not, Option, none, some, List, [], ◌∷◌, ◌++◌, ◌==◌, ◌&&◌, ◌||◌,
  string_eq, nat_eq, leb, any, map, contains, if◌then◌else◌, ok, raise, ◌>>=◌, ◌>>◌, raise_if,
}
use mihomo_userctl.Trust.{Checked}
use mihomo_userctl.Yaml.{
  Yaml, null, int, text, list, mapping, Items, nil, item, Entries, end, get, has_only, truthy,
  section,
}
use mihomo_userctl.Endpoints.{
  Python, loopbacks, proxy_types, transparent_types, Endpoint, Controller, invalid, normal,
  normalize_address, port_of, parse_users,
}
use mihomo_userctl.Text.{strip, is_space, is_bracket, some_char, between}

-- `bool(system_scope and allowed)`
abbrev pub authorizes : Bool → List String → Bool
authorizes system [] = false
authorizes system (_ ∷ _) = system

-- The endpoint of an entry of `listeners`, and of a top-level port.
abbrev pub listed : String → String → String → ℕ → Bool → Endpoint
listed name type address port authenticated = record {
  name = name;
  source = "listeners";
  type = type;
  address = address;
  port = port;
  legacy = false;
  authenticated = authenticated;
}

abbrev pub inherited : String → String → String → ℕ → Bool → Endpoint
inherited key type address port authenticated = record {
  name = key;
  source = key;
  type = type;
  address = address;
  port = port;
  legacy = true;
  authenticated = authenticated;
}

abbrev pub or_local : Option Yaml → Yaml
or_local none = text "127.0.0.1"
or_local (some v) = v

module _ (py : Python) (system : Bool) (allowed : List String) where
  -- The inner function `add`, with the endpoints so far.
  unfoldable pub add : Endpoint → List Endpoint → Checked (List Endpoint)
  add e es =
      if not (contains loopbacks e.address) && not (contains allowed e.address)
      then raise invalid
      else if any (λ o. o.name == e.name) es
      then raise invalid
      else if any (λ o. o.address == e.address && o.port == e.port) es
      then raise invalid
      else ok (es ++ e ∷ [])

  -- A text under a key.
  abbrev pub text_of : Option Yaml → Checked String
  text_of (some (text s)) = ok s
  text_of _ = raise invalid

  abbrev pub is_name : String → Bool
  is_name s = not (s == "") && leb (String.count s) 64 && not (some_char is_space s)

  -- The body of the loop over `listeners`, after the tests of the entry's form.
  unfoldable pub add_listener : Entries → String → String → List Endpoint → Checked (List Endpoint)
  unfolding add
  add_listener d name type es = do
    authenticated ← parse_users (get d "users")
    raise_if (contains transparent_types type && not system) invalid
    raise_if (contains proxy_types type && not authenticated) invalid
    port ← port_of (get d "port")
    address ← normalize_address py (authorizes system allowed) (or_local (get d "listen"))
    add (listed name type address port authenticated) es

  unfoldable pub parse_listener : Yaml → List Endpoint → Checked (List Endpoint)
  unfolding add_listener get has_only some_char is_space
  parse_listener (mapping d) es = do
    raise_if (not (has_only ("name" ∷ "type" ∷ "listen" ∷ "port" ∷ "users" ∷ []) d)) invalid
    name ← text_of (get d "name")
    raise_if (not (is_name name)) invalid
    type ← text_of (get d "type")
    raise_if (not (contains (proxy_types ++ transparent_types) type)) invalid
    add_listener d name type es
  parse_listener _ es = raise invalid

  unfoldable pub parse_items : Items → List Endpoint → Checked (List Endpoint)
  unfolding parse_listener
  parse_items nil es = ok es
  parse_items (item v vs) es = parse_listener v es >>= parse_items vs

  unfoldable pub parse_listeners : Option Yaml → List Endpoint → Checked (List Endpoint)
  unfolding parse_items
  parse_listeners none es = ok es
  parse_listeners (some null) es = ok es
  parse_listeners (some (list vs)) es = parse_items vs es
  parse_listeners (some _) es = raise invalid

  -- The body of the loop over `INERT_PORT_KEYS`.
  unfoldable pub parse_legacy :
      Bool → Yaml → String → String → Option Yaml → List Endpoint → Checked (List Endpoint)
  unfolding add
  parse_legacy auth raw key type none es = ok es
  parse_legacy auth raw key type (some null) es = ok es
  parse_legacy auth raw key type (some (int n)) es = if n == 0 then ok es else do
    raise_if (contains proxy_types type && not auth) invalid
    port ← port_of (some (int n))
    address ← normalize_address py (authorizes system allowed) raw
    add (inherited key type address port auth) es
  parse_legacy auth raw key type (some _) es = raise invalid

  unfoldable pub parse_legacies :
      Bool → Yaml → Entries → List (String × String) → List Endpoint → Checked (List Endpoint)
  unfolding parse_legacy get
  parse_legacies auth raw cfg [] es = ok es
  parse_legacies auth raw cfg ((key, type) ∷ keys) es =
      parse_legacy auth raw key type (get cfg key) es >>= parse_legacies auth raw cfg keys

abbrev pub legacy_keys : List (String × String)
legacy_keys =
    ("port", "http")
    ∷ ("socks-port", "socks")
    ∷ ("mixed-port", "mixed")
    ∷ ("redir-port", "redir")
    ∷ ("tproxy-port", "tproxy")
    ∷ []

-- `':' in v and all(v.split(':', 1))`
abbrev colon : ℕ
colon = 58

unfoldable pub after_colon : String → Option String
after_colon String.[] = none
after_colon (String.◌∷◌ c s) = let rest = after_colon s in if code c == colon then some s else rest

unfoldable pub is_entry : Yaml → Bool
unfolding after_colon
is_entry (text String.[]) = false
is_entry (text (String.◌∷◌ c s)) =
    not (code c == colon) && elim (after_colon s) [ none ↦ false | some rest ↦ not (rest == "") ]
is_entry _ = false

unfoldable pub are_entries : Items → Bool
unfolding is_entry
are_entries nil = true
are_entries (item v vs) = is_entry v && are_entries vs

-- Whether top-level authentication is on.
unfoldable pub legacy_auth : Option Yaml → Checked Bool
unfolding are_entries
legacy_auth (some (list (item v vs))) = if are_entries (item v vs) then ok true else raise invalid
legacy_auth _ = ok false

abbrev is_star : Yaml → Bool
is_star (text s) = s == "*"
is_star _ = false

abbrev pub bind_default : Bool → Option Yaml → Yaml
bind_default allow_lan none = text (if allow_lan then "*" else "127.0.0.1")
bind_default allow_lan (some v) = v

abbrev pub legacy_address : Bool → Option Yaml → Yaml
legacy_address allow_lan v =
    if allow_lan && is_star (bind_default allow_lan v)
    then text "0.0.0.0"
    else bind_default allow_lan v

-- `text.rpartition(':')`, `none` without a colon
unfoldable pub rpartition : String → Option (String × String)
rpartition String.[] = none
rpartition (String.◌∷◌ c s) = elim (rpartition s) [
  | some (host, port) ↦ some (String.◌∷◌ c host, port)
  | none ↦ if code c == colon then some ("", s) else none
]

abbrev pub is_token : Char → Bool
is_token c = between 65 90 c || between 97 122 c || between 48 57 c || code c == 95 || code c == 45

-- `re.fullmatch(r'[A-Za-z0-9_-]{32,256}', secret)`
abbrev pub is_secret : Option Yaml → Bool
is_secret (some (text s)) =
    leb 32 (String.count s) && leb (String.count s) 256 && not (some_char (λ c. not (is_token c)) s)
is_secret _ = false

abbrev pub present : Option Yaml → Bool
present none = false
present (some null) = false
present (some _) = true

abbrev pub check_controller : Option Yaml → Option ℕ → String → Checked (Option Controller)
check_controller secret none host = raise invalid
check_controller secret (some port) host =
    if not (contains loopbacks host)
    then raise invalid
    else if not (leb 1024 port && leb port 65535)
    then raise invalid
    else if not (is_secret secret)
    then raise invalid
    else ok (some (record { address = host; port = port; authenticated = true }))

abbrev pub local_name : String → String
local_name host = if host == "localhost" then "127.0.0.1" else host

module _ (py : Python) where
  -- On the parts before and after the last colon.
  abbrev pub at_parts : Option Yaml → Option (String × String) → Checked (Option Controller)
  at_parts secret none = raise invalid
  at_parts secret (some (host, port)) =
      check_controller secret (py.int_of port) (local_name (strip is_bracket host))

  unfoldable pub controller_at : Option Yaml → Option Yaml → Checked (Option Controller)
  unfolding rpartition strip is_space some_char
  controller_at secret none = ok none
  controller_at secret (some null) = ok none
  controller_at secret (some (text raw)) = at_parts secret (rpartition (strip is_space raw))
  controller_at secret (some _) = raise invalid

  unfoldable pub parse_controller : Entries → Checked (Option Controller)
  unfolding controller_at get
  parse_controller cfg = do
    raise_if
        (present (get cfg "external-controller-unix")
          || present (get cfg "external-controller-tls"))
        invalid
    controller_at (get cfg "secret") (get cfg "external-controller")

  abbrev pub clashes : Option Controller → List Endpoint → Bool
  clashes none es = false
  clashes (some c) es = any (λ e. e.port == c.port && e.address == c.address) es

  abbrev pub on : Entries → String → Bool
  on cfg key = truthy (get cfg key)

  -- `tun.get('enable')` of a section that must be a mapping.
  abbrev inner : Option Entries → String → Checked Bool
  inner none key = raise invalid
  inner (some d) key = ok (truthy (get d key))

  -- The tests before any listener is read.
  unfoldable pub check_surfaces : Bool → Entries → Checked Unit
  unfolding get
  check_surfaces system cfg = do
    tun ← inner (section cfg "tun") "enable"
    raise_if (not system && (tun || on cfg "redir-port" || on cfg "tproxy-port")) invalid
    raise_if (not system && on cfg "allow-lan") invalid
    dns ← inner (section cfg "dns") "listen"
    raise_if dns invalid
    raise_if (on cfg "skip-auth-prefixes" || on cfg "external-doh-server") invalid

  unfoldable pub parse_mapping :
      Bool → List String → Entries → Checked (List Endpoint × Option Controller)
  unfolding check_surfaces parse_listeners legacy_auth parse_legacies parse_controller
  parse_mapping system allowed cfg = do
    check_surfaces system cfg
    named ← parse_listeners py system allowed (get cfg "listeners") []
    auth ← legacy_auth (get cfg "authentication")
    es ←
        parse_legacies py system allowed auth
          (legacy_address (on cfg "allow-lan") (get cfg "bind-address")) cfg legacy_keys named
    controller ← parse_controller cfg
    raise_if (clashes controller es) invalid
    ok (es, controller)

  -- `parse_endpoints(cfg, system_scope, allowed_addresses)`
  unfoldable pub parse_endpoints :
      Bool → List String → Yaml → Checked (List Endpoint × Option Controller)
  unfolding parse_mapping
  parse_endpoints system allowed null = parse_mapping system (map (normal py) allowed) end
  parse_endpoints system allowed (mapping cfg) = parse_mapping system (map (normal py) allowed) cfg
  parse_endpoints system allowed _ = raise invalid
