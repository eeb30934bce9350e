-- ===== src/Yaml.antt =====
-- The values of a YAML or JSON document, as mihomoctl/yamlutil.py and `json.loads` give them, with
-- texts as keys. A number or date that is no integer is `other`, of which the code only asks whether
-- it is true, but for 1.0, which Python takes to equal 1.
use mihomo_userctl.Base.{
  ℕ, String, Bool, true, false, not, Option, none, some, List, ◌==◌, ◌&&◌, string_eq, nat_eq,
  contains, if◌then◌else◌,
}

mutual
  pub data Yaml : Type 0 where
    null : Yaml
    bool : Bool → Yaml
    int : ℕ → Yaml
    negative : ℕ → Yaml
    text : String → Yaml
    other : Bool → Yaml
    float_one : Yaml
    list : Items → Yaml
    mapping : Entries → Yaml

  pub data Items : Type 0 where
    nil : Items
    item : Yaml → Items → Items

  pub data Entries : Type 0 where
    end : Entries
    entry : String → Yaml → Entries → Entries

-- `d.get(key)`
unfoldable pub get : Entries → String → Option Yaml
get end k = none
get (entry j v d) k = if j == k then some v else get d k

-- The keys of a mapping, all of which are among the given ones.
unfoldable pub has_only : List String → Entries → Bool
has_only keys end = true
has_only keys (entry k v d) = contains keys k && has_only keys d

-- Whether a value counts as true.
abbrev pub truthy : Option Yaml → Bool
truthy none = false
truthy (some null) = false
truthy (some (bool b)) = b
truthy (some (int n)) = not (n == 0)
truthy (some (negative n)) = true
truthy (some (text s)) = not (s == "")
truthy (some (other b)) = b
truthy (some float_one) = true
truthy (some (list nil)) = false
truthy (some (list (item _ _))) = true
truthy (some (mapping end)) = false
truthy (some (mapping (entry _ _ _))) = true

abbrev pub as_mapping : Option Yaml → Option Entries
as_mapping (some (mapping d)) = some d
as_mapping _ = none

-- `cfg.get(key) or {}`, if it is a mapping
abbrev pub section : Entries → String → Option Entries
section cfg key = if truthy (get cfg key) then as_mapping (get cfg key) else some end
