-- ===== src/Config/Parts.antt =====
-- What holds of each part of a document that mihomoctl/config.py accepts.
use mihomo_userctl.Base.{
  ℕ, String, ◌≡◌, ◌≢◌, ◌⊎◌, ◌≤◌, refl, inl, inr, true, false, not, Option, none, some, List, [],
  ◌∷◌, ◌&&◌, string_eq, nat_eq, length, ok, raise_if, All, arith, bind_ok, ok_injective,
  raise_if_ok, Bool-cases,
}
use mihomo_userctl.Yaml.{
  Yaml, null, text, int, list, mapping, Items, nil, item, Entries, end, entry, get, has_only,
}
use mihomo_userctl.Endpoints.{invalid}
use mihomo_userctl.Config.{
  Profile, Paths, timeout_of, parse_health, is_name, require_name, is_no_proxy, is_safe_path,
  require_abs,
}
use mihomo_userctl.Config.Parse.{
  listener_of, no_proxy_items, no_proxy_of, path_of, parse_profile, parse_profiles, is_set,
  is_entry, at_most, default_no_proxy,
}

abbrev pub IsSafePath : Paths → Option String → Type 0
IsSafePath paths none = Unit
IsSafePath paths (some s) = is_safe_path paths s ≡ true

-- A profile that the program can use.
pub record IsProfile (paths : Paths) (p : Profile) : Type 0 where
  pub named : is_name p.name ≡ true
  pub selects : (p.http_listener ≢ none) ⊎ (p.socks_listener ≢ none)
  pub credentials : IsSafePath paths p.credentials_file
  pub bypasses : All (λ s. is_no_proxy s ≡ true) p.no_proxy
  pub few : length p.no_proxy ≤ 128
  pub low : 1 ≤ p.timeout
  pub high : p.timeout ≤ 120

pub require_name_ok : (s t : String) → require_name s ≡ ok t → is_name t ≡ true
unfolding require_name
require_name_ok s t h = elim (Bool-cases (is_name s)) [
  | inl e ↦ ground arith
  | inr e ↦ absurd (cc (rw e at h))
]

parse_health_range : (v : Option Yaml) (n : ℕ) → parse_health v ≡ ok n → (1 ≤ n) × (n ≤ 120)
unfolding parse_health
parse_health_range none n h = ground arith
parse_health_range (some null) n h = ground arith
parse_health_range (some (mapping d)) n h = elim (Bool-cases (has_only ("timeout" ∷ []) d)) [
  | inl e ↦ by_timeout (get d "timeout") (rw e at h)
  | inr e ↦ absurd (cc (rw e at h))
]
  where
    by_timeout : (o : Option Yaml) → timeout_of o ≡ ok n → (1 ≤ n) × (n ≤ 120)
    by_timeout none h = ground arith
    by_timeout (some (int k)) h = ground arith
    by_timeout (some _) h = cc
parse_health_range (some _) n h = cc

set_or :
    (a b : Option String) → (not (is_set a) && not (is_set b)) ≡ false → (a ≢ none) ⊎ (b ≢ none)
set_or none none h = cc
set_or none (some b) h = inr (λ e. cc)
set_or (some a) b h = inl (λ e. cc)

no_proxy_items_ok :
    (vs : Items) (ss : List String) → no_proxy_items vs ≡ ok ss → All (λ s. is_no_proxy s ≡ true) ss
unfolding no_proxy_items
no_proxy_items_ok nil [] h = tt
no_proxy_items_ok nil (s ∷ ss) h = cc
no_proxy_items_ok (item (text s) vs) ss h = elim (Bool-cases (is_entry s)) [
  | inl e ↦
      let (rest, read, h1) = bind_ok (no_proxy_items vs) (λ ss'. ok (s ∷ ss')) (rw e at h) in
      let good : is_no_proxy s ≡ true = ground arith in
      rw (← ok_injective h1) (good, no_proxy_items_ok vs rest read)
  | inr e ↦ absurd (cc (rw e at h))
]
no_proxy_items_ok (item _ vs) ss h = cc

defaults_ok : All (λ s. is_no_proxy s ≡ true) default_no_proxy × (length default_no_proxy ≤ 128)
unfolding is_no_proxy nat_eq string_eq
defaults_ok = ((refl, (refl, (refl, tt))), omega arith)

no_proxy_of_ok :
    (v : Option Yaml) (ss : List String)
    → no_proxy_of v ≡ ok ss
    → All (λ s. is_no_proxy s ≡ true) ss × (length ss ≤ 128)
unfolding no_proxy_of
no_proxy_of_ok none ss h = rw (← ok_injective h) defaults_ok
no_proxy_of_ok (some null) ss h = rw (← ok_injective h) defaults_ok
no_proxy_of_ok (some (list (item v vs))) ss h =
    let (found, read, h1) = bind_ok (no_proxy_items (item v vs)) (at_most 128) h in
    let same : found ≡ ss = ground arith in
    let few : length found ≤ 128 = ground arith in
    rw (← same) (no_proxy_items_ok (item v vs) found read, few)
no_proxy_of_ok (some _) ss h = cc

module _ (paths : Paths) where
  pub require_abs_ok :
      (v : Yaml) (s : String) → require_abs paths v ≡ ok s → is_safe_path paths s ≡ true
  unfolding require_abs
  require_abs_ok (text t) s h = elim (Bool-cases (is_safe_path paths t)) [
    | inl e ↦ rw (← ok_injective (rw e at h)) e
    | inr e ↦ absurd (cc (rw e at h))
  ]
  require_abs_ok _ s h = cc

  path_of_ok : (v : Option Yaml) (o : Option String) → path_of paths v ≡ ok o → IsSafePath paths o
  unfolding path_of
  path_of_ok none o h = rw (← ok_injective h) tt
  path_of_ok (some null) o h = rw (← ok_injective h) tt
  path_of_ok (some v) o h =
      let (s, read, h1) = bind_ok (require_abs paths v) (λ s. ok (some s)) h in
      rw (← ok_injective h1) (require_abs_ok v s read)

  abbrev profile_keys : List String
  profile_keys =
      "http_listener" ∷ "socks_listener" ∷ "credentials_file" ∷ "no_proxy" ∷ "health" ∷ []

  parse_profile-IsProfile :
      (key : String) (v : Yaml) (p : Profile) → parse_profile paths key v ≡ ok p → IsProfile paths p
  unfolding parse_profile
  parse_profile-IsProfile key (mapping d) p h =
      let (name, named, h1) = bind_ok (require_name key) _ h in
      let (_, _, h2) = bind_ok (raise_if (not (has_only profile_keys d)) invalid) _ h1 in
      let (http, _, h3) = bind_ok (listener_of (get d "http_listener")) _ h2 in
      let (socks, _, h4) = bind_ok (listener_of (get d "socks_listener")) _ h3 in
      let (_, selects, h5) =
        bind_ok (raise_if (not (is_set http) && not (is_set socks)) invalid) _ h4 in
      let (credentials, safe, h6) = bind_ok (path_of paths (get d "credentials_file")) _ h5 in
      let (no_proxy, bypass, h7) = bind_ok (no_proxy_of (get d "no_proxy")) _ h6 in
      let (timeout, healthy, h8) = bind_ok (parse_health (get d "health")) _ h7 in
      let bypasses = no_proxy_of_ok (get d "no_proxy") no_proxy bypass in
      let range = parse_health_range (get d "health") timeout healthy in
      rw (← ok_injective h8) (record {
        named = require_name_ok key name named;
        selects = set_or http socks (raise_if_ok _ invalid selects);
        credentials = path_of_ok (get d "credentials_file") credentials safe;
        bypasses = bypasses.0;
        few = bypasses.1;
        low = range.0;
        high = range.1;
      })
  parse_profile-IsProfile key _ p h = cc

  pub parse_profiles-IsProfile :
      (d : Entries) (ps : List Profile) → parse_profiles paths d ≡ ok ps → All (IsProfile paths) ps
  unfolding parse_profiles
  parse_profiles-IsProfile end ps h = rw (← ok_injective h) tt
  parse_profiles-IsProfile (entry name v d) ps h =
      let (p, first, h1) = bind_ok (parse_profile paths name v) _ h in
      let (qs, others, h2) = bind_ok (parse_profiles paths d) _ h1 in
      rw (← ok_injective h2)
        (parse_profile-IsProfile name v p first, parse_profiles-IsProfile d qs others)
