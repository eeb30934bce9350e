-- ===== src/Examples/RuleFiles.antt =====
-- A concrete rule file, and the theorems on mihomoctl/controller/rules.py applied to it.
use mihomo_userctl.Base.{
  ℕ, ◌≡◌, refl, String, true, false, Option, some, [], ◌∷◌, nat_eq, string_eq,
}
use mihomo_userctl.Base.Dict
use mihomo_userctl.Files.{FilePath, path_eq, Bytes, Meta, file, dir, Files, Os}
use mihomo_userctl.Rules.Whole.{Summary, file_status}
use mihomo_userctl.Rules.Passed.{IsPassed, file_status_passes}

abbrev owned : ℕ → Meta
owned mode = record { mode = mode; uid = 1000; gid = 1000 }

abbrev rules_path : FilePath
rules_path = record { absolute = true; parts = "custom-proxy.yaml" ∷ "u" ∷ [] }

abbrev files : Files
files =
    (record { absolute = true; parts = "u" ∷ [] }, dir (owned 0o700))
    ∷ (rules_path, file (1 ∷ 2 ∷ []) (owned 0o600))
    ∷ []

abbrev os : Os
os = record { uid = 1000; gid = 1000; resolves = λ fs p. false }

abbrev decode : Bytes → Option String
decode b = some "payload:\n  - DOMAIN,example.org\n"

abbrev sha256 : Bytes → String
sha256 b = "digest"

abbrev shown : FilePath → String
shown p = "/u/custom-proxy.yaml"

file_status_passes_example :
    (s : Summary) × ((file_status os decode sha256 files rules_path).summary ≡ some s)
    × IsPassed os decode sha256 files rules_path s
unfolding file_status path_eq nat_eq string_eq Dict.get
file_status_passes_example = file_status_passes os decode sha256 files rules_path refl
