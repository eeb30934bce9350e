-- ===== src/Backend/Receipt.antt =====
-- Which receipts mihomoctl/lifecycle/process.py accepts.
use mihomo_userctl.Base.{
  ℕ, String, ◌≡◌, ◌<◌, ◌≤◌, refl, sym, ap, inl, inr, Bool, true, false, not, Option, none, some,
  ◌==◌, string_eq, nat_eq, leb, ok, raise_if, raise_if_ok, bind_ok, bind_to, raise_if_passes,
  ok_injective, Bool-cases, arith,
}
use mihomo_userctl.Text.{begins}
use mihomo_userctl.Yaml.{Yaml, text, int, mapping, Entries, get}
use mihomo_userctl.Identity.{ProcessIdentity}
use mihomo_userctl.Backend.{
  Core, invalid, differs, value_of, equals, number_where, absolute_text, resolved_binary,
  resolve_some, validate_mapping, validate, payload,
}

module _ (core : Core) where
  -- An identity of a process of the acting user that runs the selected core and configuration.
  pub record IsReceipt (id : ProcessIdentity) : Type 0 where
    pub pid : 1 < id.pid
    pub uid : id.uid ≡ core.uid
    pub start_time : 1 ≤ id.start_time
    pub absolute : begins id.exe "/" ≡ true
    pub selected : (b : String) × (core.binary ≡ some b) × (id.exe ≡ core.resolve b)
    pub config : id.config ≡ core.config

  number_where_ok :
      (good : ℕ → Bool) (v : Option Yaml) (n : ℕ) → number_where good v ≡ ok n → good n ≡ true
  unfolding number_where
  number_where_ok good (some (int k)) n h = elim (Bool-cases (good k)) [
    | inl e ↦ rw (← ok_injective (rw e at h)) e
    | inr e ↦ absurd (cc (rw e at h))
  ]
  number_where_ok good _ n h = cc

  absolute_text_ok : (v : Option Yaml) (s : String) → absolute_text v ≡ ok s → begins s "/" ≡ true
  unfolding absolute_text
  absolute_text_ok (some (text t)) s h = elim (Bool-cases (begins t "/")) [
    | inl e ↦ rw (← ok_injective (rw e at h)) e
    | inr e ↦ absurd (cc (rw e at h))
  ]
  absolute_text_ok _ s h = cc

  resolve_some_ok :
      (o : Option String) (s : String)
      → resolve_some core.resolve o ≡ ok s
      → (b : String) × (o ≡ some b) × (s ≡ core.resolve b)
  resolve_some_ok none s h = cc
  resolve_some_ok (some b) s h = (b, refl, sym (ok_injective h))

  is_not : (b : Bool) → not b ≡ false → b ≡ true
  is_not true h = refl
  is_not false h = cc

  -- An accepted receipt is of a process of the acting user, with a number above 1, that runs the
  -- selected core with the selected configuration.
  validate_mapping-IsReceipt :
      (d : Entries) (id : ProcessIdentity) → validate_mapping core d ≡ ok id → IsReceipt id
  unfolding validate_mapping resolved_binary
  validate_mapping-IsReceipt d id h =
      let (_, _, h1) =
        bind_ok (raise_if (not (equals (get d "backend") (some "process"))) invalid) _ h in
      let (pid, e2, h2) = bind_ok (number_where (leb 2) (get d "pid")) _ h1 in
      let (uid, e3, h3) = bind_ok (number_where (λ n. n == core.uid) (get d "uid")) _ h2 in
      let (start_time, e4, h4) = bind_ok (number_where (leb 1) (get d "start_time")) _ h3 in
      let (exe, e5, h5) = bind_ok (absolute_text (get d "exe")) _ h4 in
      let (_, _, h6) =
        bind_ok (raise_if (not (equals (get d "config") core.config)) differs) _ h5 in
      let (_, _, h7) =
        bind_ok (raise_if (not (equals (get d "binary") core.binary)) differs) _ h6 in
      let (binary, e8, h8) = bind_ok (resolve_some core.resolve core.binary) _ h7 in
      let (_, e9, h9) = bind_ok (raise_if (not (exe == binary)) differs) _ h8 in
      let (b, some_b, resolved) = resolve_some_ok core.binary binary e8 in
      let same : (exe == binary) ≡ true = is_not (exe == binary) (raise_if_ok _ differs e9) in
      let above = number_where_ok (leb 2) (get d "pid") pid e2 in
      let own = number_where_ok (λ n. n == core.uid) (get d "uid") uid e3 in
      let started = number_where_ok (leb 1) (get d "start_time") start_time e4 in
      rw (← ok_injective h9) (record {
        pid = ground arith;
        uid = ground arith;
        start_time = ground arith;
        absolute = absolute_text_ok (get d "exe") exe e5;
        selected = (b, some_b, ground arith);
        config = refl;
      })

  pub validate-IsReceipt :
      (v : Option Yaml) (id : ProcessIdentity) → validate core v ≡ ok id → IsReceipt id
  unfolding validate
  validate-IsReceipt (some (mapping d)) id h = validate_mapping-IsReceipt d id h
  validate-IsReceipt _ id h = cc

  equals_self : (o : Option String) → equals (some (value_of o)) o ≡ true
  unfolding equals
  equals_self none = refl
  equals_self (some s) = ground arith

  number_where_passes :
      (good : ℕ → Bool) (n : ℕ) → good n ≡ true → number_where good (some (int n)) ≡ ok n
  unfolding number_where
  number_where_passes good n h = rw h refl

  absolute_text_passes : (s : String) → begins s "/" ≡ true → absolute_text (some (text s)) ≡ ok s
  unfolding absolute_text
  absolute_text_passes s h = rw h refl

  resolved_binary_passes :
      (id : ProcessIdentity) → IsReceipt id → resolve_some core.resolve core.binary ≡ ok id.exe
  resolved_binary_passes id good = let (b, some_b, same) = good.selected in rw (some_b, same) refl

  at_least : (m n : ℕ) → m ≤ n → leb m n ≡ true
  at_least m n h = ground arith

  same_number : (m n : ℕ) → m ≡ n → (m == n) ≡ true
  same_number m n h = ground arith

  same_text : (s : String) → (s == s) ≡ true
  same_text s = ground arith

  -- What `_write_state` writes of such an identity is accepted, and read as that identity.
  pub validate-payload :
      (id : ProcessIdentity) (now : ℕ)
      → IsReceipt id
      → validate core (some (mapping (payload core id now))) ≡ ok id
  unfolding validate validate_mapping resolved_binary payload get equals string_eq
  validate-payload id now good =
      let above : leb 2 id.pid ≡ true = at_least 2 id.pid (omega arith) in
      let own : (id.uid == core.uid) ≡ true = same_number id.uid core.uid good.uid in
      let started : leb 1 id.start_time ≡ true = at_least 1 id.start_time good.start_time in
      bind_to (number_where (leb 2) (some (int id.pid))) _ id.pid
        (number_where_passes (leb 2) id.pid above)
        (bind_to (number_where (λ n. n == core.uid) (some (int id.uid))) _ id.uid
          (number_where_passes (λ n. n == core.uid) id.uid own)
          (bind_to (number_where (leb 1) (some (int id.start_time))) _ id.start_time
            (number_where_passes (leb 1) id.start_time started)
            (bind_to (absolute_text (some (text id.exe))) _ id.exe
              (absolute_text_passes id.exe good.absolute)
              (bind_to (raise_if (not (equals (some (value_of core.config)) core.config)) differs) _
                tt
                (raise_if_passes (equals (some (value_of core.config)) core.config) differs
                  (equals_self core.config))
                (bind_to (raise_if (not (equals (some (value_of core.binary)) core.binary)) differs)
                  _ tt
                  (raise_if_passes (equals (some (value_of core.binary)) core.binary) differs
                    (equals_self core.binary))
                  (bind_to (resolve_some core.resolve core.binary) _ id.exe
                    (resolved_binary_passes id good)
                    (bind_to (raise_if (not (id.exe == id.exe)) differs) _ tt
                      (raise_if_passes (id.exe == id.exe) differs (same_text id.exe))
                      (ap
                        (λ c. ok (record {
                          pid = id.pid;
                          uid = id.uid;
                          start_time = id.start_time;
                          exe = id.exe;
                          config = c;
                        }))
                        (sym good.config)))))))))
