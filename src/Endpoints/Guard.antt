-- ===== src/Endpoints/Guard.antt =====
-- `validate_profile_listeners` and `assert_security_envelope` of mihomoctl/endpoints.py.
use mihomo_userctl.Base.{
  bind_ok, String, ◌≡◌, ◌↔◌, ◌⊎◌, refl, inl, inr, Bool, true, false, not, Option, none, some, List,
  [], ◌∷◌, ◌==◌, ◌&&◌, ◌||◌, string_eq, is_some, if◌then◌else◌, ok, raise, ◌>>=◌, All, Any, arith,
  ap, Bool-cases,
}
use mihomo_userctl.Errors.{Exception}
use mihomo_userctl.Trust.{Checked, refused}
use mihomo_userctl.Yaml.{Yaml, null, mapping, Entries, end, get}
use mihomo_userctl.Endpoints.{Endpoint, invalid, supports_http, supports_socks}

-- `by_name.get(name)`; a later endpoint takes the place of an earlier one of the same name.
unfoldable pub named : List Endpoint → String → Option Endpoint
named [] name = none
named (e ∷ es) name =
    let rest = named es name in
    if is_some rest then rest else if e.name == name then some e else none

abbrev pub serve : (Endpoint → Bool) → Option Endpoint → Checked (Option Endpoint)
serve supports none = raise invalid
serve supports (some e) = if supports e then ok (some e) else raise invalid

-- One round of the loop, for the listener that the profile names for a role.
unfoldable pub choose :
    List Endpoint → (Endpoint → Bool) → Option String → Checked (Option Endpoint)
unfolding named
choose es supports none = ok none
choose es supports (some name) = if name == "" then ok none else serve supports (named es name)

unfoldable pub validate_profile_listeners :
    List Endpoint → Option String → Option String → Checked (Option Endpoint × Option Endpoint)
unfolding choose
validate_profile_listeners es http socks = do
  chosen_http ← choose es supports_http http
  chosen_socks ← choose es supports_socks socks
  ok (chosen_http, chosen_socks)

-- What was chosen for a role: the listener of that name, which serves it, or none that was named.
abbrev pub IsServed : List Endpoint → (Endpoint → Bool) → Option String → Option Endpoint → Type 0
IsServed es supports name none = (name ≡ none) ⊎ (name ≡ some "")
IsServed es supports name (some e) =
    (name ≡ some e.name) × Any (λ o. o ≡ e) es × (supports e ≡ true)

named_ok :
    (es : List Endpoint) (name : String) (e : Endpoint)
    → named es name ≡ some e
    → (e.name ≡ name) × Any (λ o. o ≡ e) es
unfolding named
named_ok [] name e h = cc
named_ok (o ∷ es) name e h = ground (arith, named_ok es name e)

serve_ok :
    (es : List Endpoint) (supports : Endpoint → Bool) (name : String) (o c : Option Endpoint)
    → ((e : Endpoint) → o ≡ some e → (e.name ≡ name) × Any (λ x. x ≡ e) es)
    → serve supports o ≡ ok c
    → IsServed es supports (some name) c
serve_ok es supports name none c k h = cc
serve_ok es supports name (some e) none k h = ground arith
serve_ok es supports name (some e) (some x) k h = ground (arith, k e refl)

nothing_ok :
    (es : List Endpoint) (supports : Endpoint → Bool) (name : String) (c : Option Endpoint)
    → name ≡ ""
    → ◌≡◌ {A = Checked (Option Endpoint)} (ok none) (ok c)
    → IsServed es supports (some name) c
nothing_ok es supports name none e h = inr (ap some e)
nothing_ok es supports name (some x) e h = cc

choose_ok :
    (es : List Endpoint) (supports : Endpoint → Bool) (name : Option String) (c : Option Endpoint)
    → choose es supports name ≡ ok c
    → IsServed es supports name c
unfolding choose
choose_ok es supports none none h = inl refl
choose_ok es supports none (some e) h = cc
choose_ok es supports (some name) c h = elim (Bool-cases (name == "")) [
  | inl e ↦ nothing_ok es supports name c (ground arith) (rw e at h)
  | inr e ↦ serve_ok es supports name (named es name) c (named_ok es name) (rw e at h)
]

-- What a profile is given for HTTP and for SOCKS is the listener that it names for the role and
-- that can serve it; nothing is given only where it names none.
pub validate_profile_listeners_ok :
    (es : List Endpoint) (http socks : Option String) (chosen_http chosen_socks : Option Endpoint)
    → validate_profile_listeners es http socks ≡ ok (chosen_http, chosen_socks)
    → IsServed es supports_http http chosen_http × IsServed es supports_socks socks chosen_socks
unfolding validate_profile_listeners
validate_profile_listeners_ok es http socks h s e =
    let (h', eh, e1) = bind_ok (choose es supports_http http) _ e in
    let (s', es', e2) = bind_ok (choose es supports_socks socks) _ e1 in
    let same : h' ≡ h = ground arith in
    let same' : s' ≡ s = ground arith in
    rw (← same, ← same')
      (choose_ok es supports_http http h' eh, choose_ok es supports_socks socks s' es')

-- FORBIDDEN_KEYS
abbrev pub forbidden_keys : List String
forbidden_keys =
    "port" ∷ "socks-port" ∷ "mixed-port" ∷ "redir-port" ∷ "tproxy-port" ∷ "bind-address"
    ∷ "allow-lan" ∷ "lan-allowed-ips" ∷ "lan-disallowed-ips" ∷ "authentication"
    ∷ "skip-auth-prefixes" ∷ "external-controller" ∷ "external-controller-tls"
    ∷ "external-controller-unix" ∷ "external-controller-cors" ∷ "external-doh-server" ∷ "secret"
    ∷ "tun" ∷ "listeners" ∷ []

abbrev pub or_null : Option Yaml → Yaml
or_null none = null
or_null (some v) = v

abbrev pub as_entries : Yaml → Entries
as_entries (mapping d) = d
as_entries _ = end

abbrev pub violation : Exception
violation = refused "policy-envelope-violation"

-- `same` is Python's `==` of two values of a configuration.
module _ (same : Yaml → Yaml → Bool) where
  abbrev pub differs : Option Yaml → Option Yaml → Bool
  differs old new =
      (is_some old && not (is_some new))
      || (not (is_some old) && is_some new)
      || not (same (or_null old) (or_null new))

  unfoldable pub assert_keys : List String → Entries → Entries → Checked Unit
  unfolding get
  assert_keys [] before after = ok tt
  assert_keys (key ∷ keys) before after =
      let rest = assert_keys keys before after in
      if differs (get before key) (get after key) then raise violation else rest

  unfoldable pub assert_security_envelope : Yaml → Yaml → Checked Unit
  unfolding assert_keys
  assert_security_envelope before after =
      assert_keys forbidden_keys (as_entries before) (as_entries after)

  -- The key is present in both or in neither, with the same value.
  abbrev pub IsKept : Entries → Entries → String → Type 0
  IsKept before after key =
      (is_some (get before key) ≡ is_some (get after key))
      × (same (or_null (get before key)) (or_null (get after key)) ≡ true)

  differs_not :
      (old new : Option Yaml)
      → (differs old new ≡ false)
        ↔ ((is_some old ≡ is_some new) × (same (or_null old) (or_null new) ≡ true))
  differs_not none none = ground arith
  differs_not none (some w) = ground arith
  differs_not (some v) none = ground arith
  differs_not (some v) (some w) = ground arith

  assert_keys_ok :
      (keys : List String) (before after : Entries)
      → (assert_keys keys before after ≡ ok tt) ↔ All (IsKept before after) keys
  unfolding assert_keys
  assert_keys_ok [] before after = ground arith
  assert_keys_ok (key ∷ keys) before after =
      ground (arith, assert_keys_ok keys before after, differs_not (get before key) (get after key))

  -- A changed configuration passes exactly when every protected key is present in both documents
  -- or in neither, and has the same value.
  pub assert_security_envelope_ok :
      (before after : Yaml)
      → (assert_security_envelope before after ≡ ok tt)
        ↔ All (IsKept (as_entries before) (as_entries after)) forbidden_keys
  unfolding assert_security_envelope
  assert_security_envelope_ok before after =
      assert_keys_ok forbidden_keys (as_entries before) (as_entries after)
