-- ===== src/Engine.antt =====
-- The wrapper of QuickJS: hbf/qjs/engine.c.
pub mod Errors
pub mod Ownership
use hbf.Base.{
  ℕ, ◌-◌, ◌*◌, ◌%◌, ◌^◌, Bool, true, false, not, ◌&&◌, Option, none, some, List, [], ◌∷◌, Bytes,
  codes, c_str, take, ltb, ◌==◌, if◌then◌else◌,
}

-- g_qjs_config
pub record EngineConfig : Type 0 where
  pub mem_limit_bytes : ℕ
  pub timeout_ms : ℕ
  pub initialized : Bool

-- `size_t` arithmetic; a time limit is not negative.
unfoldable pub hbf_qjs_init : ℕ → ℕ → EngineConfig → EngineConfig
hbf_qjs_init mem_limit_mb timeout_ms g = if g.initialized then g else (record {
  mem_limit_bytes = mem_limit_mb * 1024 * 1024 % 2 ^ 64;
  timeout_ms = timeout_ms;
  initialized = true;
})

unfoldable pub hbf_qjs_shutdown : EngineConfig → EngineConfig
hbf_qjs_shutdown g = if not g.initialized then g else record g { initialized = false }

-- The fields of hbf_qjs_ctx_t that evaluation reads and writes; `error_buf` is what stands in the
-- array of 512 characters before its first NUL.
pub record EvalState : Type 0 where
  pub start_time_ms : ℕ
  pub error_buf : Bytes

-- Whether the handler interrupts at a time of the monotonic clock.
unfoldable pub hbf_qjs_interrupt_handler : EngineConfig → EvalState → ℕ → Bool
hbf_qjs_interrupt_handler g s now =
    if g.timeout_ms == 0 then false else ltb g.timeout_ms (now - s.start_time_ms)

unfoldable pub hbf_qjs_begin_exec : ℕ → EvalState → EvalState
hbf_qjs_begin_exec now s = record s { start_time_ms = now }

-- snprintf(error_buf, 512, "%s", text)
unfoldable pub set_error : Bytes → EvalState → EvalState
set_error text s = record s { error_buf = take 511 (c_str text) }

-- What JS_Eval or a job gives: a value, the rejected promise of a module whose body throws, or an
-- exception with the text that JS_ToCString gives of it. Nothing looks at a promise.
pub data Outcome : Type 0 where
  evaluated : Outcome
  rejected : Outcome
  threw : Option Bytes → Outcome

-- The exception's text, or a text of the function where there is none.
unfoldable pub report : Bytes → Option Bytes → EvalState → EvalState
unfolding set_error
report default none s = set_error default s
report default (some text) s = set_error text s

-- The result is whether the function returns 0, with the state after it.
abbrev pub Evaluation : Type 0
Evaluation = Bool × EvalState

-- `hbf_qjs_eval`; `given` says that neither the context nor the code is NULL.
unfoldable pub hbf_qjs_eval : Bool → ℕ → Outcome → EvalState → Evaluation
unfolding hbf_qjs_begin_exec report
hbf_qjs_eval false now outcome s = (false, s)
hbf_qjs_eval true now evaluated s = (true, record (hbf_qjs_begin_exec now s) { error_buf = [] })
hbf_qjs_eval true now rejected s = (true, record (hbf_qjs_begin_exec now s) { error_buf = [] })
hbf_qjs_eval true now (threw text) s =
    (false, report (codes "Unknown JavaScript error") text (hbf_qjs_begin_exec now s))

-- The loop over the pending jobs; a job whose exception has no text leaves the error as it is.
unfoldable pub run_jobs : List Outcome → EvalState → Evaluation
unfolding set_error
run_jobs [] s = (true, record s { error_buf = [] })
run_jobs (evaluated ∷ jobs) s = run_jobs jobs s
run_jobs (rejected ∷ jobs) s = run_jobs jobs s
run_jobs (threw none ∷ jobs) s = (false, s)
run_jobs (threw (some text) ∷ jobs) s = (false, set_error text s)

-- `hbf_qjs_eval_module`, with the outcomes of the jobs that it runs; the queue is taken to end.
unfoldable pub hbf_qjs_eval_module : Bool → ℕ → Outcome → List Outcome → EvalState → Evaluation
unfolding hbf_qjs_begin_exec report run_jobs
hbf_qjs_eval_module false now outcome jobs s = (false, s)
hbf_qjs_eval_module true now evaluated jobs s = run_jobs jobs (hbf_qjs_begin_exec now s)
hbf_qjs_eval_module true now rejected jobs s = run_jobs jobs (hbf_qjs_begin_exec now s)
hbf_qjs_eval_module true now (threw text) jobs s =
    (false, report (codes "Unknown JavaScript module error") text (hbf_qjs_begin_exec now s))

-- `hbf_qjs_get_error`; `none` is NULL.
unfoldable pub get_error : Bytes → Option Bytes
get_error [] = none
get_error (c ∷ cs) = some (c ∷ cs)

unfoldable pub hbf_qjs_get_error : EvalState → Option Bytes
unfolding get_error
hbf_qjs_get_error s = get_error s.error_buf

-- What a context holds: the wrapper's memory, the runtime, the context and a database of its own.
pub record Holdings : Type 0 where
  pub wrapper : Bool
  pub runtime : Bool
  pub js_context : Bool
  pub own_database : Bool

-- `db` says that the context has a database, `own_db` that it closes it.
pub record QjsCtx : Type 0 where
  pub db : Bool
  pub own_db : Bool

-- Whether each call gives what it is asked for; `partial` says that sqlite3_open gives a handle
-- although it fails.
pub record CreateCalls : Type 0 where
  pub calloc : Bool
  pub new_runtime : Bool
  pub new_context : Bool
  pub opens : Bool
  pub partial : Bool

-- `hbf_qjs_ctx_create_internal(db, own_db)`, with `db` whether it is not NULL; `none` is NULL.
unfoldable pub hbf_qjs_ctx_create_internal :
    EngineConfig → CreateCalls → Bool → Bool → Holdings → Option QjsCtx × Holdings
hbf_qjs_ctx_create_internal g calls db own_db h =
    if not g.initialized
    then (none, h)
    else if not calls.calloc
    then (none, h)
    else if not calls.new_runtime
    then (none, record (record h { wrapper = true }) { wrapper = false })
    else if not calls.new_context
    then (
      none,
      record (record h { wrapper = true; runtime = true }) { runtime = false; wrapper = false },
    )
    else let ready = record h { wrapper = true; runtime = true; js_context = true } in
      if db
      then (some (record { db = true; own_db = false }), ready)
      else if own_db
      then (if calls.opens
          then (some (record { db = true; own_db = true }), record ready { own_database = true })
          else (
            none,
            record (if calls.partial
                then record (record ready { own_database = true }) { own_database = false }
                else ready) { js_context = false; runtime = false; wrapper = false },
          ))
      else (some (record { db = false; own_db = false }), ready)

unfoldable pub hbf_qjs_ctx_create : EngineConfig → CreateCalls → Holdings → Option QjsCtx × Holdings
unfolding hbf_qjs_ctx_create_internal
hbf_qjs_ctx_create g calls h = hbf_qjs_ctx_create_internal g calls false true h

-- `hbf_qjs_ctx_create_with_db(db)`, with `db` whether it is not NULL.
unfoldable pub hbf_qjs_ctx_create_with_db :
    EngineConfig → CreateCalls → Bool → Holdings → Option QjsCtx × Holdings
unfolding hbf_qjs_ctx_create_internal
hbf_qjs_ctx_create_with_db g calls db h =
    if not db then (none, h) else hbf_qjs_ctx_create_internal g calls true false h

-- `hbf_qjs_ctx_destroy` on a context that has been created.
unfoldable pub hbf_qjs_ctx_destroy : QjsCtx → Holdings → Holdings
hbf_qjs_ctx_destroy c h =
    let closed = if c.db && c.own_db then record h { own_database = false } else h in
    record closed { js_context = false; runtime = false; wrapper = false }
