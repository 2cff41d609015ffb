-- ===== src/Engine/Errors.antt =====
-- The error that an evaluation leaves, and its time limit.
use hbf.Base.{
  ap, sym, ℕ, ◌-◌, ◌≡◌, refl, true, false, Option, none, some, List, [], ◌∷◌, Bytes, codes, c_str,
  take, ltb, ◌==◌, if◌then◌else◌,
}
use hbf.Engine.{
  EngineConfig, EvalState, Outcome, evaluated, rejected, threw, hbf_qjs_interrupt_handler,
  hbf_qjs_begin_exec, run_jobs, set_error, report, hbf_qjs_eval_module, Evaluation,
}

-- The first exception of the jobs with the text that the function reports of it: `none` where there
-- is none.
unfoldable pub job_exception : Bytes → List Outcome → Option Bytes
job_exception before [] = none
job_exception before (evaluated ∷ jobs) = job_exception before jobs
job_exception before (rejected ∷ jobs) = job_exception before jobs
job_exception before (threw none ∷ jobs) = some before
job_exception before (threw (some text) ∷ jobs) = some text

-- The first exception of JS_Eval on a module and of the jobs.
unfoldable pub first_exception : Bytes → Outcome → List Outcome → Option Bytes
unfolding job_exception
first_exception before (threw (some text)) jobs = some text
first_exception before (threw none) jobs = some (codes "Unknown JavaScript module error")
first_exception before evaluated jobs = job_exception before jobs
first_exception before rejected jobs = job_exception before jobs

-- A state after an exception with a text.
abbrev pub failed_at : ℕ → Bytes → EvalState
failed_at now text = record { start_time_ms = now; error_buf = take 511 (c_str text) }

-- What evaluation gives with a first exception, or with none.
unfoldable pub ended_at : ℕ → Option Bytes → Evaluation
ended_at now none = (true, record { start_time_ms = now; error_buf = [] })
ended_at now (some text) = (false, failed_at now text)

run_jobs_lem :
    (now : ℕ) (before : Bytes) (jobs : List Outcome)
    → take 511 (c_str before) ≡ before
    → run_jobs jobs (record { start_time_ms = now; error_buf = before })
      ≡ ended_at now (job_exception before jobs)
unfolding run_jobs job_exception ended_at set_error
run_jobs_lem now before [] h = refl
run_jobs_lem now before (evaluated ∷ jobs) h = run_jobs_lem now before jobs h
run_jobs_lem now before (rejected ∷ jobs) h = run_jobs_lem now before jobs h
run_jobs_lem now before (threw none ∷ jobs) h =
    ap (λ (b : Bytes). (false, record { start_time_ms = now; error_buf = b })) (sym h)
run_jobs_lem now before (threw (some text) ∷ jobs) h = refl

eval_module_cases :
    (now : ℕ) (outcome : Outcome) (jobs : List Outcome) (s : EvalState)
    → take 511 (c_str s.error_buf) ≡ s.error_buf
    → hbf_qjs_eval_module true now outcome jobs s
      ≡ ended_at now (first_exception s.error_buf outcome jobs)
unfolding hbf_qjs_eval_module first_exception ended_at hbf_qjs_begin_exec report run_jobs set_error
eval_module_cases now evaluated jobs s h = run_jobs_lem now s.error_buf jobs h
eval_module_cases now rejected jobs s h = run_jobs_lem now s.error_buf jobs h
eval_module_cases now (threw none) jobs s h = refl
eval_module_cases now (threw (some text)) jobs s h = refl

-- hbf_qjs_eval_module succeeds exactly where JS_Eval gives no exception and no job does, and so also
-- where JS_Eval gives a rejected promise, as for a module whose body throws; it then clears the
-- error, and otherwise the error is the first exception's text, cut at 511 characters and
-- at a NUL, where a job's exception without a text counts as the error from before. The time limit
-- starts anew each time: from then on the handler interrupts exactly beyond the limit.
pub hbf_qjs_eval_module_lem :
    (g : EngineConfig) (now later : ℕ) (outcome : Outcome) (jobs : List Outcome) (s : EvalState)
    → take 511 (c_str s.error_buf) ≡ s.error_buf
    → (hbf_qjs_eval_module true now outcome jobs s
        ≡ ended_at now (first_exception s.error_buf outcome jobs))
      × (hbf_qjs_interrupt_handler g (hbf_qjs_eval_module true now outcome jobs s).1 later
          ≡ (if g.timeout_ms == 0 then false else ltb g.timeout_ms (later - now)))
unfolding hbf_qjs_interrupt_handler ended_at
hbf_qjs_eval_module_lem g now later outcome jobs s h = (
  evaluation,
  ap (λ (n : ℕ). if g.timeout_ms == 0 then false else ltb g.timeout_ms (later - n)) started,
)
  where
    evaluation :
        hbf_qjs_eval_module true now outcome jobs s
        ≡ ended_at now (first_exception s.error_buf outcome jobs)
    evaluation = eval_module_cases now outcome jobs s h

    start_of : (o : Option Bytes) → (ended_at now o).1.start_time_ms ≡ now
    start_of none = refl
    start_of (some text) = refl

    started : (hbf_qjs_eval_module true now outcome jobs s).1.start_time_ms ≡ now
    started = rw evaluation (start_of (first_exception s.error_buf outcome jobs))
