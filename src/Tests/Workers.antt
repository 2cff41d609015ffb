-- ===== src/Tests/Workers.antt =====
-- Two threads of the web server on concrete runs.
use hbf.Base.{All, ℕ, ◌+◌, ◌≡◌, refl, ◌⊎◌, true, false, List, [], ◌∷◌, drop, arith}
use hbf.Overlay.Read.{Global}
use hbf.Handler.{lock, create_ctx, HandlerCalls, hbf_qjs_request_handler}
use hbf.Handler.Workers.{
  System, Worker, owns_after, lives_after, Step, step, Run, start, then_step, begin, begun,
}
use hbf.Handler.Workers.Sound.{Run-exclusive}
use hbf.Handler.Workers.Progress.{IsDone, remaining, Run-progress}
use hbf.Tests.Requests.{throws, files}

abbrev requests : List (HandlerCalls × Global)
requests = (throws, files) ∷ (record throws { ctx = false }, files) ∷ []

-- The first thread has its context, the second waits for the mutex.
abbrev first_lives : Worker
first_lives = record {
  owns = true;
  lives = true;
  rest = drop 2 (hbf_qjs_request_handler throws files).events;
}

abbrev one_waits : System
one_waits = record {
  locked = true;
  workers = first_lives ∷ begun (record throws { ctx = false }, files) ∷ [];
}

reach_one_waits : Run 2 (begin requests) one_waits
unfolding hbf_qjs_request_handler owns_after lives_after
reach_one_waits =
    then_step (then_step (start (begin requests)) (step 0 _ lock _ refl refl (λ e. refl)))
      (step 0 _ create_ctx _ refl refl (λ e. absurd (ground arith)))

Run-exclusive_example : (◌≡◌ {A = ℕ} 0 0) × (one_waits.locked ≡ true)
Run-exclusive_example =
    Run-exclusive requests 2 one_waits 0 0 first_lives first_lives reach_one_waits refl refl refl
      refl

Run-progress_example :
    (2 + remaining one_waits.workers ≡ remaining (begin requests).workers)
    × (((one_waits.locked ≡ false) × All IsDone one_waits.workers)
        ⊎ ((t : System) × Step one_waits t))
Run-progress_example = Run-progress requests 2 one_waits reach_one_waits
