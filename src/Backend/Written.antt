-- ===== src/Backend/Written.antt =====
-- The receipt that mihomoctl/lifecycle/process.py writes, as it reads it.
use mihomo_userctl.Base.{ℕ, ◌≡◌, ◌≤◌, true, false, some, ltb, length, ok, arith}
use mihomo_userctl.Files.{path_eq, Bytes, Files, Os, lstat, parent}
use mihomo_userctl.Trust.{require_private_dir}
use mihomo_userctl.Yaml.{mapping}
use mihomo_userctl.Identity.{ProcessIdentity}
use mihomo_userctl.Backend.{Core, validate, payload}
use mihomo_userctl.Credentials.{Refused, write_atomic}
use mihomo_userctl.Credentials.Written.{IsWritten, when_ok_ok, write_atomic_ok}
use mihomo_userctl.Backend.Store.{Place, decoded, write_state}
use mihomo_userctl.Backend.Receipt.{IsReceipt, validate-payload}

module _ (os : Os) (core : Core) (place : Place) (f : Refused) where
  write_state_ok :
      (id : ProcessIdentity) (now : ℕ) (fs fs' : Files)
      → write_state os core place f id now fs ≡ (ok tt, fs')
      → IsWritten os f fs' place.runtime_state (place.dumps (payload core id now)) 0o600
  unfolding write_state
  write_state_ok id now fs fs' h =
      let made = require_private_dir os fs (parent place.runtime_state) true "config-invalid" in
      let text = place.dumps (payload core id now) in
      write_atomic_ok os f place.runtime_state text 0o600 made.1 fs'
        (when_ok_ok made.0 made.1 fs' (write_atomic os f place.runtime_state text 0o600) h)

  small : (b : Bytes) → length b ≤ 65536 → ltb 65536 (length b) ≡ false
  small b h = ground arith

  -- Where `_write_state` returns, the receipt is a file of the acting user with mode 0600, and it is
  -- decoded and accepted as the identity that was written, if that is one of the selected core, the
  -- text is no longer than 64 kilobytes, and `json` reads back what it has written.
  pub write_state-validate :
      (id : ProcessIdentity) (now : ℕ) (fs fs' : Files)
      → write_state os core place f id now fs ≡ (ok tt, fs')
      → IsReceipt core id
      → length (place.dumps (payload core id now)) ≤ 65536
      → place.loads (place.dumps (payload core id now)) ≡ some (mapping (payload core id now))
      → IsWritten os f fs' place.runtime_state (place.dumps (payload core id now)) 0o600
        × (validate core (decoded os core place (lstat fs' place.runtime_state)) ≡ ok id)
  write_state-validate id now fs fs' h good short json =
      let there = write_state_ok id now fs fs' h in
      let text = place.dumps (payload core id now) in
      (there, rw (there, small text short, json) (validate-payload core id now good))
