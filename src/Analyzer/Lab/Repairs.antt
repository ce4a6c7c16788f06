-- ===== src/Analyzer/Lab/Repairs.antt =====
-- `_ensure_lab_node_agent_steps` of layer2-analyzer/src/main.py: the services it knows, the
-- signatures of a broken configuration, and the steps that it adds for a service.
use aads.Prelude.{String, ◌<>◌, Bool, false, not, List, [], ◌∷◌, any, contains, if◌then◌else◌}
use aads.Catalog.{Key}
use aads.Analyzer.{ClaudeStylePlan, Config, Cluster, cluster_context_text, messages_of}
use aads.Analyzer.Lab.{
  Draft, Addition, wants_approval, existing_ids, last_step_id, succ_ℤ, add_step,
  remove_existing_node_commands,
}

-- what the calls for one service differ in
pub record Service : Type 0 where
  pub name : String
  pub aliases : List String
  pub label : String
  pub confirm : String
  pub restore_explanation : String
  pub restart_title : String
  pub restart : String
  pub restart_explanation : String
  pub verify_title : String
  pub verify : String
  pub verify_explanation : String

abbrev nginx : Service
nginx = record {
  name = "nginx";
  aliases = "nginx" ∷ [];
  label = "nginx";
  confirm = "Confirm whether nginx is running.";
  restore_explanation = "Recover the lab nginx configuration from the trusted local snapshot.";
  restart_title = "Start nginx service";
  restart = "start";
  restart_explanation = "Bring nginx back online for the lab target.";
  verify_title = "Verify nginx config";
  verify = "config_test";
  verify_explanation = "Validate nginx configuration after remediation.";
}

abbrev postgresql : Service
postgresql = record {
  name = "postgresql";
  aliases = "postgresql" ∷ "postgres" ∷ " pg " ∷ "pg_ctl" ∷ [];
  label = "PostgreSQL";
  confirm = "Confirm whether PostgreSQL is running.";
  restore_explanation = "Recover PostgreSQL configuration from the trusted local snapshot.";
  restart_title = "Restart PostgreSQL service";
  restart = "restart";
  restart_explanation = "Restart PostgreSQL to recover from crash or OOM kill.";
  verify_title = "Test PostgreSQL connection";
  verify = "connection_test";
  verify_explanation = "Verify PostgreSQL is accepting connections after remediation.";
}

abbrev redis : Service
redis = record {
  name = "redis";
  aliases = "redis" ∷ [];
  label = "Redis";
  confirm = "Confirm whether Redis is running.";
  restore_explanation = "Recover Redis configuration from the trusted local snapshot.";
  restart_title = "Restart Redis service";
  restart = "restart";
  restart_explanation = "Restart Redis to recover from crash or OOM kill.";
  verify_title = "Ping Redis";
  verify = "ping";
  verify_explanation = "Verify Redis is responding after remediation.";
}

abbrev mysql : Service
mysql = record {
  name = "mysql";
  aliases = "mysql" ∷ "mariadb" ∷ "mysqld" ∷ "mariadbd" ∷ [];
  label = "MySQL";
  confirm = "Confirm whether MySQL/MariaDB is running.";
  restore_explanation = "Recover MySQL configuration from the trusted local snapshot.";
  restart_title = "Restart MySQL service";
  restart = "restart";
  restart_explanation = "Restart MySQL/MariaDB to recover from crash or OOM kill.";
  verify_title = "Test MySQL connection";
  verify = "connection_test";
  verify_explanation = "Verify MySQL/MariaDB is accepting connections after remediation.";
}

abbrev pub services : List Service
services = nginx ∷ postgresql ∷ redis ∷ mysql ∷ []

-- `is_nginx`, `is_pg`, `is_redis`, `is_mysql`
unfoldable pub is_affected : Config → Cluster → Service → Bool
is_affected config cluster service =
    any (λ alias. contains alias (cluster_context_text config cluster)) service.aliases

config_signatures : List String
config_signatures =
    "emerg" ∷ "syntax error" ∷ "invalid line" ∷ "invalid directive" ∷ "invalid_directive"
    ∷ "invalid_chaos" ∷ "chaos_option" ∷ "fatal config file error" ∷ "config file error"
    ∷ "unknown variable" ∷ "unknown option" ∷ "can't open config" ∷ "config error"
    ∷ "wrong group definition" ∷ "includedir directive" ∷ "invalid datadir" ∷ "data dir not found"
    ∷ "could not open configuration" ∷ "configuration file" ∷ []

unfoldable pub is_config_error : Config → Cluster → Bool
unfolding config_signatures
is_config_error config cluster =
    any (λ signature. contains signature (config.lower (messages_of cluster))) config_signatures

-- the operations that a restore of the configuration takes the place of
abbrev pub superseded : Service → List Key
superseded s = (s.name, s.restart) ∷ (s.name, "reload") ∷ []

unfoldable pub supersede : Config → Cluster → List Service → Draft → Draft
supersede config cluster [] draft = draft
supersede config cluster (s ∷ ss) draft = supersede config cluster ss (
    if is_affected config cluster s
    then remove_existing_node_commands (superseded s) draft
    else draft)

abbrev addition : Service → String → String → String → String → Bool → Addition
addition s title operation phase explanation approval = record {
  title = title;
  operation = operation;
  phase = phase;
  explanation = explanation;
  target = s.name;
  requires_approval = approval;
}

-- the repair of a service: the configuration is restored, or the service started again
unfoldable pub repair : Config → Bool → Service → Addition
repair config broken s =
    if broken
    then addition s ("Restore known-good " <> (s.label <> " config")) "restore_config" "Execute"
        s.restore_explanation (wants_approval config)
    else addition s s.restart_title s.restart "Execute" s.restart_explanation
        (wants_approval config)

unfoldable pub add_service : Config → Bool → Service → Draft → Draft
add_service config broken s draft =
    add_step config (addition s s.verify_title s.verify "Verify" s.verify_explanation false) (
      add_step config (repair config broken s) (
        add_step config
          (addition s ("Check " <> (s.label <> " status")) "status" "Explore" s.confirm false)
          draft))

unfoldable pub add_services : Config → Cluster → List Service → Draft → Draft
add_services config cluster [] draft = draft
add_services config cluster (s ∷ ss) draft = add_services config cluster ss (
    if is_affected config cluster s
    then add_service config (is_config_error config cluster) s draft
    else draft)

unfoldable pub first_draft : ClaudeStylePlan → Draft
first_draft plan = record {
  steps = plan.execution_steps;
  ids = existing_ids plan.execution_steps;
  next_step_id = succ_ℤ (last_step_id plan.execution_steps);
}

unfoldable pub superseded_draft : Config → Cluster → ClaudeStylePlan → Draft
superseded_draft config cluster plan =
    if is_config_error config cluster
    then supersede config cluster services (first_draft plan)
    else first_draft plan

unfoldable pub ensure_lab_node_agent_steps : Config → ClaudeStylePlan → Cluster → ClaudeStylePlan
ensure_lab_node_agent_steps config plan cluster =
    if not (any (is_affected config cluster) services) then plan else record plan {
      execution_steps =
          (add_services config cluster services (superseded_draft config cluster plan)).steps;
    }
