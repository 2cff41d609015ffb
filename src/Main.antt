-- ===== src/Main.antt =====
-- `main` of hbf/shell/main.c: what it starts and stops, in order, and its exit status.
pub mod Shutdown
use hbf.Base.{ℕ, Bool, true, false, not, Option, none, some, List, [], ◌∷◌, ◌++◌, if◌then◌else◌}
use hbf.Config.{Config, Parse, help, refused, parsed}

pub data Service : Type 0 where
  database : Service
  engine : Service
  http_server : Service

-- `start` is hbf_db_init, hbf_qjs_init or hbf_server_create, and `stop` is hbf_db_close,
-- hbf_qjs_shutdown or hbf_server_destroy; `listen` is hbf_server_start, and `serve_requests` the
-- loop that sleeps until a signal.
pub data Step : Type 0 where
  start : Service → Step
  stop : Service → Step
  listen : Step
  serve_requests : Step

pub record Exit : Type 0 where
  pub steps : List Step
  pub status : ℕ

-- Whether each function gives what `main` goes on with.
pub record MainCalls : Type 0 where
  pub db_init : Bool
  pub qjs_init : Bool
  pub server_create : Bool
  pub server_start : Bool

-- The calls after the configuration has been parsed.
unfoldable pub run_services : MainCalls → Exit
run_services calls =
    if not calls.db_init
    then record { steps = []; status = 1 }
    else if not calls.qjs_init
    then record { steps = start database ∷ stop database ∷ []; status = 1 }
    else if not calls.server_create
    then record {
      steps = start database ∷ start engine ∷ stop engine ∷ stop database ∷ [];
      status = 1;
    }
    else if not calls.server_start
    then record {
      steps =
          start database
          ∷ start engine
          ∷ start http_server
          ∷ stop http_server
          ∷ stop engine
          ∷ stop database
          ∷ [];
      status = 1;
    }
    else record {
      steps =
          start database
          ∷ start engine
          ∷ start http_server
          ∷ listen
          ∷ serve_requests
          ∷ stop http_server
          ∷ stop engine
          ∷ stop database
          ∷ [];
      status = 0;
    }

-- `main`, on what hbf_config_parse gives of its arguments.
unfoldable pub main : MainCalls → Parse → Exit
unfolding run_services
main calls help = record { steps = []; status = 0 }
main calls refused = record { steps = []; status = 1 }
main calls (parsed config) = run_services calls
