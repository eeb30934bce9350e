-- ===== src/Lib.antt =====
-- mihomo-userctl: a model of mihomoctl, the program that installs, configures and supervises the
-- Mihomo core for a user or for the system.
--
-- The parts. Every operation that changes managed files runs as a transaction (mihomoctl/
-- transaction.py): it checks each destination with the trust checks (mihomoctl/trust.py), writes a
-- journal before each change, and commits, or undoes the journal when an exception escapes.
-- Exceptions carry a stable code and an exit code (mihomoctl/errors.py); checks are combined into
-- one verdict (mihomoctl/envelope.py). The manager document (mihomoctl/config.py) and core
-- configurations (mihomoctl/endpoints.py) are accepted by checks. A process is stopped, and a socket
-- attributed to it, by its identity (mihomoctl/identity.py, mihomoctl/lifecycle/ports.py), which the process
-- backend keeps in a private receipt (mihomoctl/lifecycle/process.py). The interactive console keeps its
-- snapshots in one store, which worker threads fill (mihomoctl/controller/controller_state.py).
--
-- The files.
-- - Base: shared types, equality as an instance, lists, dicts, and results of calls that may raise.
-- - Errors: the classes of mihomoctl/errors.py, their codes, and the exceptions that handlers tell
--   apart.
-- - Envelope: `combine`, `combine_checks` and `exit_code`; Envelope/Verdict has the theorems.
-- - Files: a file system of entries by path, as `lstat` sees it, with `mkdir`, `unlink` and the
--   like; Files/Laws has their laws and the invariant that every entry lies in a directory.
-- - Trust: one function per check of mihomoctl/trust.py; Trust/Ancestors, Trust/Private and
--   Trust/Code say what each accepts.
-- - Transaction: the state. Transaction/Exec is the monad of its methods, Transaction/Destination
--   `_check_destination`, Transaction/Publish `publish`, `write_bytes` and `delete`,
--   Transaction/Rollback `rollback`, `commit` and `_restore`, Transaction/Run `run_transaction`,
--   `restore_failed_operation` and `_restore_runtime`. Transaction/Directories, Restorable, Undo,
--   Settled, Effects, Deletes, Operations and Kept prove what one operation does to the files and to
--   the journal; Atomicity, Outcome and Failures conclude for whole operations.
-- - Transaction/Recover: the journals that `recover_transactions` finds. Transaction/Recover/Reopen has
--   its checks, Transaction/Recover/Visits its loop; Transaction/Recover/Synced says that the stored
--   document is what the transaction had in memory, Contents, Explained, Writes and Undrifted that the files
--   that an ended process leaves are explained by its journal, Abandoned and Drifted what a recovery
--   does.
-- - Yaml, Text: the values of a document and the tests of texts that the parsers share.
-- - Config: the manager document, mihomoctl/config.py; Config/Parse is `parse_manager`, Config/Parts,
--   Config/Valid and Config/Accepted say what every accepted document satisfies.
-- - Endpoints: the checks of addresses, ports and users of a core configuration;
--   Endpoints/Parse is `parse_endpoints`, Endpoints/Security, Asking and Accepted say what every
--   accepted configuration satisfies, Endpoints/Guard has `validate_profile_listeners` and
--   `assert_security_envelope`.
-- - Identity: the world of processes, by ticks, and the reading of an identity from /proc, as
--   mihomoctl/identity.py does it; Identity/Stop is `_signal` and `stop`, Identity/Seen, Target and
--   Bound say what was seen, which processes are signalled, and that `stop` ends.
-- - Ports: the tables of sockets, as mihomoctl/lifecycle/ports.py reads them; Ports/Wait has the
--   checks, with `owns_listener`, Ports/Ready and Ports/Free say what they have seen, and
--   Ports/Ended that the wait ends.
-- - Backend: the receipt of the process backend (mihomoctl/lifecycle/process.py); Backend/Store reads
--   and writes it, Backend/Lifecycle has
--   `running_identity`, `stop`, `status` and `_terminate_child`. Backend/Receipt, Written,
--   Held, Cleared and Observed say which receipts are accepted, that a written one is, and what these
--   operations do and have seen.
-- - Rules: the lines of a custom rule file as `parse_rule_file` of mihomoctl/controller/rules.py reads
--   them; Rules/Payload says which texts are accepted. Rules/Whole reads a file, from its path to the
--   status that is printed, and Rules/Passed says which paths and files pass.
-- - Credentials: `write_atomic` of mihomoctl/credentials.py; Credentials/Written says what it writes.
--   Credentials/Profile reads and writes a user name and a password; Credentials/Quoted has the rules of
--   YAML for what it quotes, Credentials/Accepted says which are accepted.
-- - Retention: `discard_core_history` of mihomoctl/retention.py; Retention/There, Spared and Listed
--   say which files it leaves, and what the manifest lists.
-- - Console: the store of mihomoctl/controller/controller_state.py; Console/Labels has the texts of
--   errors (with mihomoctl/controller/controller_types.py), Console/Actions the methods, and
--   Console/Schedule the threads, a step of which is one call under the lock. Console/Cells is the
--   abstract view of one key; Books, Shown and Refined relate the two, Answers is about
--   obsolete results, Small and Bounds about sizes, Tasks, Tracked, Reached and Settles about the workers.
-- - Examples: concrete runs, and the theorems applied to them.
--
-- Conventions. Code is what it returns beside the state it leaves, so a change made before an
-- exception stays. A system call of a transaction that the kernel refuses is a `Fault` of that
-- operation, one of `Refusals` at its end. What `cleanup_after_commit` makes of the files, and what it
-- raises, is an argument of `run_transaction`. SHA-256, UTF-8, the flattening of a path into a file
-- name and what the target of a link has are parameters, and so are the answers of the managed
-- runtime. A transaction's private directories hold only what it put there. Symbolic links in the
-- middle of a path never occur behind a check of ancestors, which refuses them. The loops over data
-- are structural recursion, so that no fuel is needed; those that wait for a process or a socket
-- have fuel, one unit for each round, of which `stop` and `wait_listening` need one more than the
-- sleeps that fit into their spans. Every look at a process or a socket is made at a tick of its
-- own, between which anything may happen. A YAML mapping has texts as keys, and a row of the
-- manifest of cores that is no mapping, or whose `binary` is no text, is refused before any core is
-- removed; `load_manager` is a parameter there. Where credentials are read, `yaml.scan` and
-- `yaml.load_all` are parameters, the latter with the constructor of mappings of mihomoctl/yamlutil.py,
-- which refuses repeated keys. `str.lower`, the canonical form of an IP address and `int` of a text
-- are parameters.
--
-- In a recovery, the fields of a stored document that the code does not test have the types with which
-- `_persist` writes them, the directories come sorted by name, and the answers of the runtime and the
-- refusals of the kernel come with each directory. A process that
-- ends without a handler leaves what a failing call at that place leaves. That is not so between
-- `mkstemp` and `os.replace`, where a killed process leaves the temporary file, between a new directory
-- and the record of it, or while the journal is written: these points are excluded.
--
-- In the console, a task or a producer returns or raises an `Exception`, the values are of any type,
-- and the event of a stream is a number. What a worker takes from the queue after `shutdown` is
-- dropped, and is no step.
--
-- Not modelled: `start` and `restart` of the process backend, the temporary directories of the
-- constructor, health checks, the operation lock,
-- systemd and TUN, installation and migration, network access, the terminal interface, and the command
-- line.
pub mod Base
pub mod Errors
pub mod Envelope
pub mod Files
pub mod Identity
pub mod Ports
pub mod Backend
pub mod Trust
pub mod Transaction
pub mod Text
pub mod Yaml
pub mod Endpoints
pub mod Config
pub mod Rules
pub mod Examples
pub mod Console
pub mod Credentials
pub mod Retention
