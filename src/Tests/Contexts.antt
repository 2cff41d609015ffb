-- ===== src/Tests/Contexts.antt =====
-- The contexts of QuickJS and its console on concrete runs.
use hbf.Base.{
  length, ◌+◌, c_str, List, ◌≡◌, refl, true, false, none, some, [], ◌∷◌, codes, ltb, ◌==◌, ◌-◌,
  if◌then◌else◌,
}
use hbf.Console.{Argument, concat_args}
use hbf.Console.Joined.{first_characters, second_characters, concat_args_lem}
use hbf.Engine.{
  EngineConfig, EvalState, Outcome, evaluated, threw, CreateCalls, hbf_qjs_eval_module,
  hbf_qjs_interrupt_handler, hbf_qjs_ctx_create_internal, hbf_qjs_ctx_create,
  hbf_qjs_ctx_create_with_db, hbf_qjs_init, hbf_qjs_get_error,
}
use hbf.Engine.Errors.{first_exception, ended_at, hbf_qjs_eval_module_lem}
use hbf.Engine.Ownership.{
  nothing, after_destroy, owns_database, hbf_qjs_ctx_destroy-create_internal,
}

abbrev engine : EngineConfig
engine = record { mem_limit_bytes = 67108864; timeout_ms = 5000; initialized = true }

-- The engine as main starts it, which a second start leaves as it is.
hbf_qjs_init_twice :
    hbf_qjs_init 8 0
      (hbf_qjs_init 64 5000 (record { mem_limit_bytes = 0; timeout_ms = 0; initialized = false }))
    ≡ engine
unfolding hbf_qjs_init
hbf_qjs_init_twice = refl

abbrev failed_before : EvalState
failed_before = record { start_time_ms = 10; error_buf = codes "Error: old" }

-- A job whose exception has no text leaves the text of an earlier error.
stale_error :
    hbf_qjs_get_error
      (hbf_qjs_eval_module true 100 evaluated (evaluated ∷ threw none ∷ []) failed_before).1
    ≡ some (codes "Error: old")
unfolding hbf_qjs_get_error hbf_qjs_eval_module
stale_error = refl

-- The second of two jobs throws.
abbrev second_job_throws : List Outcome
second_job_throws = evaluated ∷ threw (some (codes "TypeError")) ∷ []

hbf_qjs_eval_module_lem_example :
    (hbf_qjs_eval_module true 100 evaluated second_job_throws failed_before
      ≡ ended_at 100 (first_exception (codes "Error: old") evaluated second_job_throws))
    × (hbf_qjs_interrupt_handler engine
          (hbf_qjs_eval_module true 100 evaluated second_job_throws failed_before).1
          5101
        ≡ (if 5000 == 0 then false else ltb 5000 (5101 - 100)))
unfolding c_str
hbf_qjs_eval_module_lem_example =
    hbf_qjs_eval_module_lem engine 100 5101 evaluated second_job_throws failed_before refl

abbrev no_handle : CreateCalls
no_handle = record {
  calloc = true;
  new_runtime = true;
  new_context = true;
  opens = false;
  partial = true;
}

hbf_qjs_ctx_destroy-create_internal_example :
    (after_destroy (hbf_qjs_ctx_create_internal engine no_handle false true nothing) ≡ nothing)
    × (after_destroy (hbf_qjs_ctx_create engine no_handle nothing) ≡ nothing)
    × (after_destroy (hbf_qjs_ctx_create_with_db engine no_handle false nothing) ≡ nothing)
    × (owns_database (hbf_qjs_ctx_create_with_db engine no_handle false nothing) ≡ false)
hbf_qjs_ctx_destroy-create_internal_example =
    hbf_qjs_ctx_destroy-create_internal engine no_handle false true

-- An object whose toString gives a longer text the second time.
abbrev growing : List Argument
growing =
    record { first = some (codes "n:"); second = some (codes "n:") }
    ∷ record { first = some (codes "a"); second = some (codes "abcdef") }
    ∷ []

-- Ten bytes are written, the NUL included, where five are allocated.
growing_overflows :
    ((concat_args true growing).room ≡ 5) × (length (concat_args true growing).text + 1 ≡ 10)
unfolding concat_args c_str
growing_overflows = (refl, refl)

concat_args_lem_example :
    ((concat_args true growing).room + second_characters growing
      ≡ length (concat_args true growing).text + 1 + first_characters growing)
    × ((concat_args false growing).room ≡ length (concat_args false growing).text + 1)
concat_args_lem_example = concat_args_lem growing
