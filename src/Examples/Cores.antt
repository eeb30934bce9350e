-- ===== src/Examples/Cores.antt =====
-- A user scope with two installed cores, and what `discard_core_history` of mihomoctl/retention.py leaves
-- of them.
use mihomo_userctl.Base.{
  String, ◌≡◌, ◌≢◌, ◌⊎◌, refl, true, false, some, List, [], ◌∷◌, ◌==◌, ok, if◌then◌else◌, string_eq,
  nat_eq, contains,
}
use mihomo_userctl.Base.Dict
use mihomo_userctl.Files.{FilePath, path_eq, Meta, file, dir, Files, Os, lstat}
use mihomo_userctl.Yaml.{Yaml, Entries, text, list, mapping, nil, item, end, entry}
use mihomo_userctl.Text.{is_digit}
use mihomo_userctl.Retention.{Tools, Denied, manifest, discard_core_history}
use mihomo_userctl.Credentials.Written.{IsWritten}
use mihomo_userctl.Retention.{kept_path, unique}
use mihomo_userctl.Retention.Listed.{discard_core_history-lists}
use mihomo_userctl.Retention.Spared.{IsSuperseded, discard_core_history-spares}

abbrev user : Meta
user = record { mode = 0o700; uid = 1000; gid = 1000 }

abbrev private_file : Meta
private_file = record { mode = 0o600; uid = 1000; gid = 1000 }

abbrev at : List String → FilePath
at parts = record { absolute = true; parts = parts }

abbrev old_core : FilePath
old_core = at ("mihomo" ∷ "v1.2.3" ∷ "cores" ∷ [])

abbrev new_core : FilePath
new_core = at ("mihomo" ∷ "v1.10.0" ∷ "cores" ∷ [])

abbrev receipt : String → String → Entries
receipt binary digest = entry "binary" (text binary) (entry "binary_sha256" (text digest) end)

abbrev installs : Entries
installs =
    entry "installs"
      (list (item (mapping (receipt "old" "one")) (item (mapping (receipt "new" "two")) nil))) end

abbrev user_tools : Tools
user_tools = record {
  system = false;
  cores_root = at ("cores" ∷ []);
  manager_path = at ("manager.yaml" ∷ []);
  path_of = λ s. if s == "old" then old_core else new_core;
  loads = λ b. some (mapping installs);
  dumps = λ d. 9 ∷ [];
  sha256 = λ b. if contains b 1 then "one" else "two";
  active = λ fs. ok (some "new");
  is_decimal = is_digit;
  can_execute = λ fs p. true;
}

abbrev nothing_denied : Denied
nothing_denied = record {
  unlink = λ p. false;
  rmdir = λ p. false;
  writing = record { at_temp = false; at_replace = false; at_sync = false; at_unlink = false };
}

abbrev user_os : Os
user_os = record { uid = 1000; gid = 1000; resolves = λ fs p. false }

abbrev two_cores : Files
two_cores =
    (at [], dir user)
    ∷ (at ("cores" ∷ []), dir user)
    ∷ (at ("manifest.json" ∷ "cores" ∷ []), file (7 ∷ []) private_file)
    ∷ (at ("v1.2.3" ∷ "cores" ∷ []), dir user)
    ∷ (old_core, file (1 ∷ []) user)
    ∷ (at ("v1.10.0" ∷ "cores" ∷ []), dir user)
    ∷ (new_core, file (2 ∷ []) user)
    ∷ []

abbrev one_core : Files
one_core =
    (at [], dir user)
    ∷ (at ("cores" ∷ []), dir user)
    ∷ (at ("manifest.json" ∷ "cores" ∷ []), file (9 ∷ []) private_file)
    ∷ (at ("v1.10.0" ∷ "cores" ∷ []), dir user)
    ∷ (new_core, file (2 ∷ []) user)
    ∷ []

-- The old core is gone, with its directory; the new one stays.
two_cores_after :
    discard_core_history user_os user_tools nothing_denied two_cores ≡ (ok tt, one_core)
unfolding discard_core_history Dict.get path_eq nat_eq mihomo_userctl.Yaml.get string_eq Dict.put
    Dict.remove mihomo_userctl.Trust.make_dirs mihomo_userctl.Trust.missing_from
two_cores_after = refl

other_path : manifest user_os user_tools nothing_denied ≢ new_core
other_path e = cc

discard_core_history-spares_example :
    (lstat (discard_core_history user_os user_tools nothing_denied two_cores).1 new_core
      ≡ some (file (2 ∷ []) user))
    ⊎ IsSuperseded new_core (2 ∷ []) user user_os user_tools nothing_denied two_cores
unfolding lstat Dict.get path_eq
discard_core_history-spares_example =
    discard_core_history-spares new_core (2 ∷ []) user user_os user_tools nothing_denied two_cores
      other_path refl

discard_core_history-lists_example :
    IsWritten user_os nothing_denied.writing one_core
      (manifest user_os user_tools nothing_denied)
      (9 ∷ [])
      0o600
unfolding lstat Dict.get path_eq mihomo_userctl.Files.exists mihomo_userctl.Retention.rows_of
    mihomo_userctl.Yaml.get string_eq kept_path unique Dict.put
discard_core_history-lists_example =
    discard_core_history-lists user_os user_tools nothing_denied two_cores one_core installs
      (receipt "old" "one") (receipt "new" "two" ∷ []) new_core
      (("old", receipt "old" "one") ∷ ("new", receipt "new" "two") ∷ []) refl refl refl refl
      two_cores_after
