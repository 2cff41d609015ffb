-- ===== src/Handler/Audit.antt =====
-- What the request handler holds at each step of a trace, and which traces are allowed.
use hbf.Base.{
  ℕ, Bool, true, false, not, Option, none, some, List, [], ◌∷◌, ◌==◌, ◌||◌, ◌&&◌, if◌then◌else◌,
}
use hbf.Handler.{
  JsValue, js_exception, js_null, js_undefined, js_function, js_other, Local, req, res, global, app,
  handle_func, result, exception, stack, message, err_str, stack_str, message_str, Event, lock,
  unlock, create_ctx, destroy_ctx, malloc_js, free_js, init_response, free_response, get, free,
  begin_exec, call, run_jobs, send_error, send_response,
}

-- A variable and its value.
pub record Slot : Type 0 where
  pub var : Local
  pub value : JsValue

-- What is held: the mutex, the context, the buffer with server.js, whether the response is
-- initialised and whether JavaScript may have filled it, and the variables with a value.
pub record Held : Type 0 where
  pub mutex : Bool
  pub ctx : Bool
  pub js_data : Bool
  pub ready : Bool
  pub filled : Bool
  pub holding : List Slot

unfoldable tag : Local → ℕ
tag req = 0
tag res = 1
tag global = 2
tag app = 3
tag handle_func = 4
tag result = 5
tag exception = 6
tag stack = 7
tag message = 8
tag err_str = 9
tag stack_str = 10
tag message_str = 11

unfoldable holds : Local → List Slot → Bool
unfolding tag
holds l [] = false
holds l (s ∷ ss) = tag l == tag s.var || holds l ss

unfoldable release : Local → List Slot → List Slot
unfolding tag
release l [] = []
release l (s ∷ ss) = let rest = release l ss in if tag l == tag s.var then ss else s ∷ rest

-- Whether a value has a reference to give back.
unfoldable needs_free : JsValue → Bool
needs_free js_exception = false
needs_free js_null = false
needs_free js_undefined = false
needs_free js_function = true
needs_free js_other = true

-- Whether no variable holds a reference.
unfoldable is_released : List Slot → Bool
unfolding needs_free
is_released [] = true
is_released (s ∷ ss) = not (needs_free s.value) && is_released ss

unfoldable guarded : Bool → Held → Option Held
guarded allowed h = if allowed then some h else none

-- One event; `none` where it is not allowed: QuickJS is used only under the mutex and on a live
-- context, nothing is freed twice, the context goes only when no reference is left.
unfoldable pub use_event : Held → Event → Option Held
unfolding holds release is_released guarded
use_event h lock = guarded (not h.mutex) (record h { mutex = true })
use_event h unlock = guarded (h.mutex && not h.ctx) (record h { mutex = false })
use_event h create_ctx = guarded (h.mutex && not h.ctx) (record h { ctx = true })
use_event h destroy_ctx =
    guarded (h.mutex && h.ctx && is_released h.holding) (record h { ctx = false; holding = [] })
use_event h malloc_js = guarded (not h.js_data) (record h { js_data = true })
use_event h free_js = guarded h.js_data (record h { js_data = false })
use_event h init_response = guarded (not h.ready) (record h { ready = true })
use_event h free_response = guarded h.ready (record h { filled = false })
use_event h (get l v) =
    guarded (h.mutex && h.ctx && not (holds l h.holding))
      (record h { holding = record { var = l; value = v } ∷ h.holding })
use_event h (free l) =
    guarded (h.mutex && h.ctx && holds l h.holding) (record h { holding = release l h.holding })
use_event h begin_exec = guarded (h.mutex && h.ctx) h
use_event h call =
    guarded
      (h.mutex
        && h.ctx
        && h.ready
        && holds handle_func h.holding
        && holds req h.holding
        && holds res h.holding)
      (record h { filled = true })
use_event h run_jobs = guarded (h.mutex && h.ctx) h
use_event h (send_error status) = some h
use_event h (send_response status) = guarded h.ready h

-- Whether a trace is allowed and ends with everything but the buffer given back: then whether the
-- buffer is still held.
unfoldable pub audit : Held → List Event → Option Bool
unfolding use_event
audit h [] =
    if h.mutex || h.ctx || h.filled || not (is_released h.holding) then none else some h.js_data
audit h (e ∷ es) = elim (use_event h e) [ none ↦ none | some h' ↦ audit h' es ]

-- The statuses that are sent to the client.
unfoldable pub replies : List Event → List ℕ
replies [] = []
replies (send_error status ∷ es) = status ∷ replies es
replies (send_response status ∷ es) = status ∷ replies es
replies (lock ∷ es) = replies es
replies (unlock ∷ es) = replies es
replies (create_ctx ∷ es) = replies es
replies (destroy_ctx ∷ es) = replies es
replies (malloc_js ∷ es) = replies es
replies (free_js ∷ es) = replies es
replies (init_response ∷ es) = replies es
replies (free_response ∷ es) = replies es
replies (get l v ∷ es) = replies es
replies (free l ∷ es) = replies es
replies (begin_exec ∷ es) = replies es
replies (call ∷ es) = replies es
replies (run_jobs ∷ es) = replies es

abbrev pub idle : Held
idle = record {
  mutex = false;
  ctx = false;
  js_data = false;
  ready = false;
  filled = false;
  holding = [];
}
