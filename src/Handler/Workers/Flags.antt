-- ===== src/Handler/Workers/Flags.antt =====
-- What one event does to the mutex and the context of the thread that may do it.
use hbf.Base.{
  ℕ, ◌+◌, ◌≤◌, ◌≡◌, refl, ◌∙◌, sym, Bool, true, false, Option-cases, inl, inr, some, List, ◌∷◌,
  arith,
}
use hbf.Handler.{
  Event, lock, unlock, create_ctx, destroy_ctx, malloc_js, free_js, init_response, free_response,
  get, free, begin_exec, call, run_jobs, send_error, send_response,
}
use hbf.Handler.Audit.{Held, use_event, audit}
use hbf.Handler.Workers.{MayHappen, owns_after, lives_after}

abbrev pub bit : Bool → ℕ
bit true = 1
bit false = 0

-- The flags after an allowed event.
pub use_event-flags :
    (h h' : Held) (e : Event)
    → use_event h e ≡ some h'
    → (h.ctx ≡ true → h.mutex ≡ true)
    → (h'.mutex ≡ owns_after e h.mutex)
      × (h'.ctx ≡ lives_after e h.ctx)
      × (h'.ctx ≡ true → h'.mutex ≡ true)
unfolding use_event owns_after lives_after
use_event-flags h h' lock e u = ground arith
use_event-flags h h' unlock e u = ground arith
use_event-flags h h' create_ctx e u = ground arith
use_event-flags h h' destroy_ctx e u = ground arith
use_event-flags h h' malloc_js e u = ground arith
use_event-flags h h' free_js e u = ground arith
use_event-flags h h' init_response e u = ground arith
use_event-flags h h' free_response e u = ground arith
use_event-flags h h' (get l v) e u = ground arith
use_event-flags h h' (free l) e u = ground arith
use_event-flags h h' begin_exec e u = ground arith
use_event-flags h h' call e u = ground arith
use_event-flags h h' run_jobs e u = ground arith
use_event-flags h h' (send_error status) e u = ground arith
use_event-flags h h' (send_response status) e u = ground arith

-- An allowed event moves the mutex between the thread and nobody.
pub use_event-balance :
    (h h' : Held) (e : Event) (locked : Bool)
    → use_event h e ≡ some h'
    → MayHappen e locked
    → bit h.mutex ≤ bit locked
    → bit (owns_after e locked) + bit h.mutex ≡ bit locked + bit (owns_after e h.mutex)
unfolding use_event owns_after
use_event-balance h h' lock locked u may le = ground (arith, may refl)
use_event-balance h h' unlock locked u may le = ground arith
use_event-balance h h' create_ctx locked u may le = omega arith
use_event-balance h h' destroy_ctx locked u may le = omega arith
use_event-balance h h' malloc_js locked u may le = omega arith
use_event-balance h h' free_js locked u may le = omega arith
use_event-balance h h' init_response locked u may le = omega arith
use_event-balance h h' free_response locked u may le = omega arith
use_event-balance h h' (get l v) locked u may le = omega arith
use_event-balance h h' (free l) locked u may le = omega arith
use_event-balance h h' begin_exec locked u may le = omega arith
use_event-balance h h' call locked u may le = omega arith
use_event-balance h h' run_jobs locked u may le = omega arith
use_event-balance h h' (send_error status) locked u may le = omega arith
use_event-balance h h' (send_response status) locked u may le = omega arith

-- The first event of a thread that keeps to its trace.
pub audit-cons :
    (h : Held) (e : Event) (es : List Event) (kept : Bool)
    → audit h (e ∷ es) ≡ some kept
    → (h' : Held) × (use_event h e ≡ some h') × (audit h' es ≡ some kept)
unfolding audit
audit-cons h e es kept a = elim (Option-cases (use_event h e)) [
  | inl none_left ↦ absurd (ground arith)
  | inr (h', u) ↦ (h', u, sym (rw (u, audit)) ∙ a)
]
