-- ===== src/Handler/Workers.antt =====
-- Requests that the threads of the web server handle at the same time, with `handler_mutex` of
-- hbf/http/handler.c: any interleaving of the handler's traces in which nobody locks a locked mutex.
pub mod Flags
pub mod Sound
pub mod Progress
use hbf.Base.{
  ℕ, suc, ◌+◌, ◌≡◌, ◌≢◌, Bool, true, false, Option, some, List, [], ◌∷◌, map, set, get_elem?,
  length, if◌then◌else◌,
}
use hbf.Overlay.Read.{Global}
use hbf.Handler.{
  JsValue, Local, Event, lock, unlock, create_ctx, destroy_ctx, malloc_js, free_js, init_response,
  free_response, get, free, begin_exec, call, run_jobs, send_error, send_response, HandlerCalls,
  hbf_qjs_request_handler,
}

-- A thread with a request: whether it holds the mutex, whether its context is alive, and what it has
-- still to do.
pub record Worker : Type 0 where
  pub owns : Bool
  pub lives : Bool
  pub rest : List Event

pub record System : Type 0 where
  pub locked : Bool
  pub workers : List Worker

-- Whether the mutex is held after an event, by the thread and at all.
unfoldable pub owns_after : Event → Bool → Bool
owns_after lock b = true
owns_after unlock b = false
owns_after create_ctx b = b
owns_after destroy_ctx b = b
owns_after malloc_js b = b
owns_after free_js b = b
owns_after init_response b = b
owns_after free_response b = b
owns_after (get l v) b = b
owns_after (free l) b = b
owns_after begin_exec b = b
owns_after call b = b
owns_after run_jobs b = b
owns_after (send_error status) b = b
owns_after (send_response status) b = b

-- Whether the thread's context is alive after an event.
unfoldable pub lives_after : Event → Bool → Bool
lives_after lock b = b
lives_after unlock b = b
lives_after create_ctx b = true
lives_after destroy_ctx b = false
lives_after malloc_js b = b
lives_after free_js b = b
lives_after init_response b = b
lives_after free_response b = b
lives_after (get l v) b = b
lives_after (free l) b = b
lives_after begin_exec b = b
lives_after call b = b
lives_after run_jobs b = b
lives_after (send_error status) b = b
lives_after (send_response status) b = b

abbrev pub advanced : Event → List Event → Worker → Worker
advanced e es w = record { owns = owns_after e w.owns; lives = lives_after e w.lives; rest = es }

-- `pthread_mutex_lock` waits for the mutex; all other events happen when their turn comes.
abbrev pub MayHappen : Event → Bool → Type 0
MayHappen e locked = e ≡ lock → locked ≡ false

pub data Step (s : System) : System → Type 0 where
  step :
      (i : ℕ) (w : Worker) (e : Event) (es : List Event)
      → get_elem? s.workers i ≡ some w
      → w.rest ≡ e ∷ es
      → MayHappen e s.locked
      → Step s
          (record { locked = owns_after e s.locked; workers = set s.workers i (advanced e es w) })

-- The runs of a number of steps.
pub data Run : ℕ → System → System → Type 0 where
  start : (s : System) → Run 0 s s
  then_step : {n : ℕ} {s t u : System} → Run n s t → Step t u → Run (suc n) s u

-- A request that no thread has begun to handle, with the answers of its calls and the database that
-- it reads, which other requests may have changed.
abbrev pub begun : HandlerCalls × Global → Worker
begun (calls, g) = record {
  owns = false;
  lives = false;
  rest = (hbf_qjs_request_handler calls g).events;
}

abbrev pub begin : List (HandlerCalls × Global) → System
begin requests = record { locked = false; workers = map begun requests }
