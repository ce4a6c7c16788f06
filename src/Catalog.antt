-- ===== src/Catalog.antt =====
-- layer2-analyzer/src/runner_catalog.py: the runner and the verification of a service's operation.
-- A table is a list of keys with values; a rule of extraction is kept as it is written.
pub mod Sound
pub mod Profile
pub mod Known
use aads.Prelude.{
  ℕ, String, ◌<>◌, Bool, true, false, ◌&&◌, Option, none, some, List, [], ◌∷◌, ℤ, pos, str_eq,
  str_mem, if◌then◌else◌,
}
use aads.Python.{Py, ok, raise, ◌>>=◌, key_error, Json, bool, num, str, obj, Fields, end, field}
use aads.Policy.{RunnerSpec}

abbrev pub Key : Type 0
Key = String × String

pub record Probe : Type 0 where
  pub argv : List String
  pub as_root : Bool
  pub timeout : ℤ
  pub extract : Fields
  pub expected : Fields

pub record Mutation : Type 0 where
  pub argv : List String
  pub timeout : ℤ
  pub idempotent : Bool

pub record VerificationSpec : Type 0 where
  pub runner : RunnerSpec
  pub extract : Fields
  pub expected : Fields

-- `table.get(key)`
unfoldable pub lookup {ℓ} : {V : Type ℓ} → Key → List (Key × V) → Option V
lookup key [] = none
lookup key ((known, value) ∷ table) =
    let rest = lookup key table in
    if str_eq known.0 key.0 && str_eq known.1 key.1 then some value else rest

probe : List String → Bool → ℕ → String → Fields → Json → Probe
probe argv as_root timeout name rule value = record {
  argv = argv;
  as_root = as_root;
  timeout = pos timeout;
  extract = field name (obj rule) end;
  expected = field name value end;
}

-- `_PROBES`
unfoldable pub probes : List (Key × Probe)
unfolding probe
probes =
    (
      ("nginx", "status"),
      probe ("systemctl" ∷ "is-active" ∷ "nginx" ∷ []) false 10 "active"
          (field "from" (str "stdout_stripped") (field "equals" (str "active") end)) (bool true),
    )
    ∷ (
      ("nginx", "config_test"),
      probe ("/usr/local/sbin/aads-nginx-config-test" ∷ []) true 15 "returncode"
          (field "from" (str "returncode") end) (num (pos 0)),
    )
    ∷ (
      ("nginx", "http_check"),
      probe ("curl" ∷ "-sS" ∷ "-o" ∷ "/dev/null" ∷ "-w" ∷ "%{http_code}" ∷ "http://127.0.0.1/" ∷ [])
          false 10 "http_code"
          (field "from" (str "stdout_stripped") (field "as_int" (bool true) end)) (num (pos 200)),
    )
    ∷ (
      ("postgresql", "status"),
      probe ("systemctl" ∷ "is-active" ∷ "postgresql" ∷ []) false 10 "active"
          (field "from" (str "stdout_stripped") (field "equals" (str "active") end)) (bool true),
    )
    ∷ (
      ("postgresql", "connection_test"),
      probe ("pg_isready" ∷ []) false 10 "returncode" (field "from" (str "returncode") end)
          (num (pos 0)),
    )
    ∷ (
      ("redis", "status"),
      probe ("systemctl" ∷ "is-active" ∷ "redis-server" ∷ []) false 10 "active"
          (field "from" (str "stdout_stripped") (field "equals" (str "active") end)) (bool true),
    )
    ∷ (
      ("redis", "ping"),
      probe ("redis-cli" ∷ "ping" ∷ []) false 10 "pong"
          (field "from" (str "stdout_stripped") (field "equals" (str "PONG") end)) (bool true),
    )
    ∷ (
      ("mysql", "status"),
      probe ("systemctl" ∷ "is-active" ∷ "mysql" ∷ []) false 10 "active"
          (field "from" (str "stdout_stripped") (field "equals" (str "active") end)) (bool true),
    )
    ∷ (
      ("mysql", "connection_test"),
      probe ("mysqladmin" ∷ "-u" ∷ "root" ∷ "--connect-timeout=5" ∷ "ping" ∷ []) false 10 "alive"
          (field "from" (str "stdout") (field "contains" (str "alive") end)) (bool true),
    )
    ∷ []

mutation : String → ℕ → Bool → Mutation
mutation script timeout idempotent = record {
  argv = ("/usr/local/sbin/aads-" <> script) ∷ [];
  timeout = pos timeout;
  idempotent = idempotent;
}

-- `_MUTATIONS`
unfoldable pub mutations : List (Key × Mutation)
unfolding mutation
mutations =
    (("nginx", "start"), mutation "nginx-start" 30 true)
    ∷ (("nginx", "reload"), mutation "nginx-reload" 30 false)
    ∷ (("nginx", "restore_config"), mutation "nginx-restore-known-good" 60 false)
    ∷ (("nginx", "ensure_snapshot"), mutation "nginx-ensure-known-good-snapshot" 30 true)
    ∷ (("postgresql", "restart"), mutation "postgresql-restart" 60 true)
    ∷ (("postgresql", "reload"), mutation "postgresql-reload" 30 false)
    ∷ (("postgresql", "restore_config"), mutation "postgresql-restore-config" 60 false)
    ∷ (("postgresql", "ensure_snapshot"), mutation "postgresql-ensure-config-snapshot" 30 true)
    ∷ (("redis", "restart"), mutation "redis-restart" 30 true)
    ∷ (("redis", "reload"), mutation "redis-reload" 30 false)
    ∷ (("redis", "restore_config"), mutation "redis-restore-config" 60 false)
    ∷ (("redis", "ensure_snapshot"), mutation "redis-ensure-config-snapshot" 30 true)
    ∷ (("mysql", "restart"), mutation "mysql-restart" 60 true)
    ∷ (("mysql", "reload"), mutation "mysql-reload" 30 false)
    ∷ (("mysql", "restore_config"), mutation "mysql-restore-config" 60 false)
    ∷ (("mysql", "ensure_snapshot"), mutation "mysql-ensure-config-snapshot" 30 true)
    ∷ []

-- `_VERIFY_PROBE`
unfoldable pub verify_probes : List (Key × Key)
verify_probes =
    (("nginx", "start"), ("nginx", "status"))
    ∷ (("nginx", "reload"), ("nginx", "config_test"))
    ∷ (("nginx", "restore_config"), ("nginx", "config_test"))
    ∷ (("postgresql", "restart"), ("postgresql", "connection_test"))
    ∷ (("postgresql", "reload"), ("postgresql", "connection_test"))
    ∷ (("postgresql", "restore_config"), ("postgresql", "connection_test"))
    ∷ (("redis", "restart"), ("redis", "ping"))
    ∷ (("redis", "reload"), ("redis", "ping"))
    ∷ (("redis", "restore_config"), ("redis", "ping"))
    ∷ (("mysql", "restart"), ("mysql", "connection_test"))
    ∷ (("mysql", "reload"), ("mysql", "connection_test"))
    ∷ (("mysql", "restore_config"), ("mysql", "connection_test"))
    ∷ []

-- `_FINAL_PROBE`, of a service in the table
unfoldable pub final_probe : String → Key
final_probe service =
    if str_eq service "postgresql"
    then ("postgresql", "connection_test")
    else if str_eq service "redis"
    then ("redis", "ping")
    else if str_eq service "mysql"
    then ("mysql", "connection_test")
    else ("nginx", "http_check")

-- `SNAPSHOT_SCOPE.get(service, "nginx_config")`
unfoldable pub snapshot_scope : String → String
snapshot_scope service =
    if str_eq service "postgresql"
    then "postgresql_config"
    else if str_eq service "redis"
    then "redis_config"
    else if str_eq service "mysql"
    then "mysql_config"
    else "nginx_config"

unfoldable pub is_read_operation : String → String → Bool
is_read_operation service operation = elim (lookup (service, operation) probes) [
  | none ↦ false
  | some _ ↦ true
]

-- a `RunnerSpec` with the defaults of its other fields
abbrev pub spec_of : List String → Bool → String → ℤ → RunnerSpec
spec_of argv as_root side_effect timeout = record {
  mode = "argv";
  argv = argv;
  cwd = "/";
  env = [];
  timeout_seconds = timeout;
  as_root = as_root;
  side_effect = side_effect;
  stdin = none;
}

unfoldable pub mutation_runner : Option Mutation → Py RunnerSpec
mutation_runner none = raise key_error
mutation_runner (some m) = ok (spec_of m.argv true "mutate" m.timeout)

unfoldable pub runner_for : String → String → Py RunnerSpec
runner_for service operation = elim (lookup (service, operation) probes) [
  | some p ↦ ok (spec_of p.argv p.as_root "read" p.timeout)
  | none ↦ mutation_runner (lookup (service, operation) mutations)
]

abbrev pub idempotent? : Option Mutation → Bool
idempotent? none = false
idempotent? (some m) = m.idempotent

unfoldable pub idempotency_for : String → String → Fields
idempotency_for service operation =
    let idempotent = idempotent? (lookup (service, operation) mutations) in
    field "mode" (str (if idempotent then "idempotent" else "non_idempotent"))
      (field "max_attempts" (num (pos (if idempotent then 2 else 1))) end)

unfoldable pub verification_from_probe : Key → Py VerificationSpec
verification_from_probe key = elim (lookup key probes) [
  | none ↦ raise key_error
  | some p ↦ ok (record {
    runner = spec_of p.argv p.as_root "read" p.timeout;
    extract = p.extract;
    expected = p.expected;
  })
]

abbrev pub probe_or_default : Option Key → Key
probe_or_default none = ("nginx", "config_test")
probe_or_default (some key) = key

unfoldable pub verification_for : String → String → Py VerificationSpec
verification_for service operation =
    verification_from_probe (probe_or_default (lookup (service, operation) verify_probes))

-- the first of the names that is in the list, or the default
unfoldable pub first_named : List String → List String → String → String
first_named [] services default = default
first_named (name ∷ names) services default =
    let rest = first_named names services default in if str_mem name services then name else rest

abbrev pub by_priority : List String
by_priority = "postgresql" ∷ "redis" ∷ "mysql" ∷ "nginx" ∷ []

unfoldable pub final_verification_for : List String → Py VerificationSpec
final_verification_for services =
    verification_from_probe (final_probe (first_named by_priority services "nginx"))

unfoldable pub snapshot_for : String → Py (RunnerSpec × String)
snapshot_for service = do
  runner ← runner_for service "ensure_snapshot"
  ok (runner, snapshot_scope service)

unfoldable pub rollback_for : String → Py (Option RunnerSpec)
rollback_for service = elim (lookup (service, "restore_config") mutations) [
  | none ↦ ok none
  | some _ ↦ (do runner ← runner_for service "restore_config"; ok (some runner))
]

abbrev pub first_or : List String → String → String
first_or [] default = default
first_or (x ∷ xs) default = x

unfoldable pub primary_service : List String → String
primary_service services = first_named by_priority services (first_or services "nginx")
