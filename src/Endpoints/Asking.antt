-- ===== src/Endpoints/Asking.antt =====
-- Which configurations `parse_endpoints` accepts, by the credentials that mihomoctl/endpoints.py asks for.
use Prim.Native.String
use mihomo_userctl.Base.{
  bind_ok, raise_if_ok, ℕ, String, ◌≡◌, ◌≢◌, refl, ◌≤◌, Bool, true, false, not, Option, none, some,
  List, [], ◌∷◌, ◌++◌, ◌==◌, ◌&&◌, string_eq, nat_eq, contains, ok, raise_if, All, arith,
}
use mihomo_userctl.Yaml.{
  Yaml, null, int, text, list, mapping, Items, nil, item, Entries, get, has_only, truthy,
}
use mihomo_userctl.Text.{some_char}
use mihomo_userctl.Endpoints.{
  Python, proxy_types, transparent_types, Endpoint, invalid, parse_users, is_user, are_users,
  is_text,
}
use mihomo_userctl.Endpoints.Parse.{
  add_listener, parse_listener, parse_items, parse_listeners, parse_legacy, parse_legacies,
  legacy_auth, are_entries, text_of, is_name, is_secret, is_token,
}
use mihomo_userctl.Endpoints.Security.{IsIn}

-- From 32 to 256 letters, digits, dashes and underscores.
abbrev pub IsSecret : Option Yaml → Type 0
IsSecret (some (text s)) =
    (32 ≤ String.count s) × (String.count s ≤ 256) × (some_char (λ c. not (is_token c)) s ≡ false)
IsSecret _ = ⊥

pub is_secret-IsSecret : (v : Option Yaml) → is_secret v ≡ true → IsSecret v
is_secret-IsSecret (some (text s)) h = ground arith
is_secret-IsSecret none h = cc
is_secret-IsSecret (some _) h = cc

-- A user with a name that is not empty, and a password.
abbrev pub IsUser : Yaml → Type 0
IsUser (mapping d) =
    (name : String) × (password : String) × (get d "username" ≡ some (text name))
    × (name ≢ "")
    × (get d "password" ≡ some (text password))
IsUser _ = ⊥

abbrev pub AreUsers : Items → Type 0
AreUsers nil = Unit
AreUsers (item v vs) = IsUser v × AreUsers vs

-- At least one user.
abbrev pub HasUsers : Option Yaml → Type 0
HasUsers (some (list (item v vs))) = AreUsers (item v vs)
HasUsers _ = ⊥

-- At least one entry, and all of them a name and a password with a colon between.
abbrev pub HasLogins : Option Yaml → Type 0
HasLogins (some (list (item v vs))) = are_entries (item v vs) ≡ true
HasLogins _ = ⊥

-- A listener that is a proxy has users.
abbrev pub Asks : Yaml → Type 0
Asks (mapping d) =
    (type : String)
    → get d "type" ≡ some (text type)
    → IsIn type proxy_types
    → HasUsers (get d "users")
Asks _ = ⊥

abbrev pub AskEach : Items → Type 0
AskEach nil = Unit
AskEach (item v vs) = Asks v × AskEach vs

abbrev pub AskAll : Option Yaml → Type 0
AskAll none = Unit
AskAll (some null) = Unit
AskAll (some (list vs)) = AskEach vs
AskAll (some _) = ⊥

-- A top-level port of a proxy, other than 0, has logins.
abbrev pub AskAtTop : Entries → List (String × String) → Type 0
AskAtTop cfg keys =
    All
      (λ (key, type).
        IsIn type proxy_types
        → (n : ℕ) → get cfg key ≡ some (int n)
        → n ≢ 0
        → HasLogins (get cfg "authentication"))
      keys

is_text-text : (v : Option Yaml) → is_text v ≡ true → (s : String) × (v ≡ some (text s))
is_text-text (some (text s)) h = (s, refl)
is_text-text none h = cc
is_text-text (some _) h = cc

IsUser-named :
    (d : Entries) (a b : Bool)
    → (a && is_text (get d "username") && truthy (get d "username") && is_text (get d "password"))
      ≡ true
    → IsUser (mapping d)
IsUser-named d a b h =
    let (name, named) = is_text-text (get d "username") (ground arith) in
    let (password, secret) = is_text-text (get d "password") (ground arith) in
    let some_name : truthy (get d "username") ≡ true = ground arith in
    (name, password, named, ground (arith, rw named at some_name), secret)

is_user-IsUser : (v : Yaml) → is_user v ≡ true → IsUser v
unfolding is_user
is_user-IsUser (mapping d) h = IsUser-named d (has_only ("username" ∷ "password" ∷ []) d) true h
is_user-IsUser _ h = cc

are_users-AreUsers : (vs : Items) → are_users vs ≡ true → AreUsers vs
unfolding are_users
are_users-AreUsers nil h = tt
are_users-AreUsers (item v vs) h =
    (is_user-IsUser v (ground arith), are_users-AreUsers vs (ground arith))

parse_users-HasUsers : (v : Option Yaml) → parse_users v ≡ ok true → HasUsers v
unfolding parse_users
parse_users-HasUsers none h = cc
parse_users-HasUsers (some null) h = cc
parse_users-HasUsers (some (list (item v vs))) h = are_users-AreUsers (item v vs) (ground arith)
parse_users-HasUsers (some _) h = cc

legacy_auth-HasLogins : (v : Option Yaml) → legacy_auth v ≡ ok true → HasLogins v
unfolding legacy_auth
legacy_auth-HasLogins (some (list (item v vs))) h = ground arith
legacy_auth-HasLogins none h = cc
legacy_auth-HasLogins (some _) h = cc

asked :
    (type : String) (auth : Bool)
    → (contains proxy_types type && not auth) ≡ false
    → IsIn type proxy_types
    → auth ≡ true
asked type auth h k = ground arith

module _ (py : Python) (system : Bool) (allowed : List String) where
  text_of_ok :
      (v : Option Yaml) (t type : String)
      → text_of py system allowed v ≡ ok t
      → v ≡ some (text type)
      → t ≡ type
  text_of_ok (some (text s)) t type h e = ground arith
  text_of_ok none t type h e = cc
  text_of_ok (some _) t type h e = cc

  add_listener-HasUsers :
      (d : Entries) (name type : String) (es es' : List Endpoint)
      → add_listener py system allowed d name type es ≡ ok es'
      → IsIn type proxy_types
      → HasUsers (get d "users")
  unfolding add_listener
  add_listener-HasUsers d name type es es' h proxy =
      let (auth, parsed, h1) = bind_ok (parse_users (get d "users")) _ h in
      let (_, _, h2) =
        bind_ok (raise_if (contains transparent_types type && not system) invalid) _ h1 in
      let (_, safe, _) = bind_ok (raise_if (contains proxy_types type && not auth) invalid) _ h2 in
      let yes_auth = asked type auth (raise_if_ok _ invalid safe) proxy in
      parse_users-HasUsers (get d "users") (rw yes_auth at parsed)

  parse_listener-Asks :
      (v : Yaml) (es es' : List Endpoint) → parse_listener py system allowed v es ≡ ok es' → Asks v
  unfolding parse_listener
  parse_listener-Asks (mapping d) es es' h = λ type there proxy.
      let (_, _, h1) =
        bind_ok
          (raise_if (not (has_only ("name" ∷ "type" ∷ "listen" ∷ "port" ∷ "users" ∷ []) d)) invalid)
          _ h in
      let (name, _, h2) = bind_ok (text_of py system allowed (get d "name")) _ h1 in
      let (_, _, h3) = bind_ok (raise_if (not (is_name py system allowed name)) invalid) _ h2 in
      let (t, typed, h4) = bind_ok (text_of py system allowed (get d "type")) _ h3 in
      let (_, _, h5) =
        bind_ok (raise_if (not (contains (proxy_types ++ transparent_types) t)) invalid) _ h4 in
      add_listener-HasUsers d name t es es' h5
        (rw (text_of_ok (get d "type") t type typed there) proxy)
  parse_listener-Asks _ es es' h = cc

  parse_items-AskEach :
      (vs : Items) (es es' : List Endpoint)
      → parse_items py system allowed vs es ≡ ok es'
      → AskEach vs
  unfolding parse_items
  parse_items-AskEach nil es es' h = tt
  parse_items-AskEach (item v vs) es es' h =
      let (next, e, h1) = bind_ok (parse_listener py system allowed v es) _ h in
      (parse_listener-Asks v es next e, parse_items-AskEach vs next es' h1)

  pub parse_listeners-AskAll :
      (v : Option Yaml) (es es' : List Endpoint)
      → parse_listeners py system allowed v es ≡ ok es'
      → AskAll v
  unfolding parse_listeners
  parse_listeners-AskAll none es es' h = tt
  parse_listeners-AskAll (some null) es es' h = tt
  parse_listeners-AskAll (some (list vs)) es es' h = parse_items-AskEach vs es es' h
  parse_listeners-AskAll (some _) es es' h = cc

  parse_legacy-asks :
      (auth : Bool) (raw : Yaml) (key type : String) (v : Option Yaml) (n : ℕ)
      (es es' : List Endpoint)
      → parse_legacy py system allowed auth raw key type v es ≡ ok es'
      → IsIn type proxy_types
      → v ≡ some (int n)
      → n ≢ 0
      → auth ≡ true
  unfolding parse_legacy
  parse_legacy-asks auth raw key type (some (int m)) n es es' h proxy e nonzero =
      let other : (m == 0) ≡ false = ground (arith, e, nonzero) in
      let (_, safe, _) =
        bind_ok (raise_if (contains proxy_types type && not auth) invalid) _ (rw other at h) in
      asked type auth (raise_if_ok _ invalid safe) proxy
  parse_legacy-asks auth raw key type none n es es' h proxy e nonzero = cc
  parse_legacy-asks auth raw key type (some _) n es es' h proxy e nonzero = cc

  pub parse_legacies-AskAtTop :
      (auth : Bool) (raw : Yaml) (cfg : Entries) (keys : List (String × String))
      (es es' : List Endpoint)
      → legacy_auth (get cfg "authentication") ≡ ok auth
      → parse_legacies py system allowed auth raw cfg keys es ≡ ok es'
      → AskAtTop cfg keys
  unfolding parse_legacies
  parse_legacies-AskAtTop auth raw cfg [] es es' a h = tt
  parse_legacies-AskAtTop auth raw cfg ((key, type) ∷ keys) es es' a h =
      let (next, e, h1) =
        bind_ok (parse_legacy py system allowed auth raw key type (get cfg key) es) _ h in
      (
        λ proxy n there nonzero.
            let on =
              parse_legacy-asks auth raw key type (get cfg key) n es next e proxy there nonzero in
            legacy_auth-HasLogins (get cfg "authentication") (rw on at a),
        parse_legacies-AskAtTop auth raw cfg keys next es' a h1,
      )
