-- ===== src/Handler/Workers/Progress.antt =====
-- What is left to do while the threads run.
use hbf.Base.{
  All, ℕ, zero, suc, ◌+◌, ◌≢◌, ◌≡◌, refl, ◌∙◌, ap, sym, ◌⊎◌, inl, inr, Bool, true, false,
  Bool-cases, some, List, [], ◌∷◌, length, set, get_elem?, All-get, arith,
}
use mathlib.Core.Option.{some-injective, none-ne-some}
use hbf.Overlay.Read.{Global}
use hbf.Handler.{Event, lock, HandlerCalls}
use hbf.Handler.Audit.{Held, use_event, audit}
use hbf.Handler.Workers.{
  Worker, System, advanced, MayHappen, Step, step, Run, start, then_step, begin,
}
use hbf.Handler.Workers.Flags.{bit}
use hbf.Handler.Workers.Sound.{IsSound, count_owners, begin-IsSafe, Run-IsSafe}

-- The events that are left in all traces.
unfoldable pub remaining : List Worker → ℕ
remaining [] = 0
remaining (w ∷ ws) = length w.rest + remaining ws

remaining-set :
    (ws : List Worker) (i : ℕ) (w v : Worker)
    → get_elem? ws i ≡ some w
    → remaining (set ws i v) + length w.rest ≡ remaining ws + length v.rest
unfolding remaining
remaining-set [] i w v e = absurd (none-ne-some w e)
remaining-set (x ∷ ws) zero w v e =
    omega (arith, ap (λ (y : Worker). length y.rest) (some-injective x w e))
remaining-set (x ∷ ws) (suc i) w v e = omega (arith, remaining-set ws i w v e)

remaining-Step : (s t : System) → Step s t → suc (remaining t.workers) ≡ remaining s.workers
remaining-Step s _ (step i w e es found next may) =
    omega (arith, remaining-set s.workers i w (advanced e es w) found, ap length next)

remaining-Run : (n : ℕ) (s t : System) → Run n s t → n + remaining t.workers ≡ remaining s.workers
remaining-Run _ s _ (start _) = omega arith
remaining-Run _ s t (then_step {t = mid} r last) =
    omega (arith, remaining-Run _ s mid r, remaining-Step mid t last)

-- A thread with something left to do.
abbrev Busy : List Worker → Type 0
Busy ws =
    (i : ℕ) × (w : Worker) × (e : Event) × (es : List Event) × (get_elem? ws i ≡ some w)
    × (w.rest ≡ e ∷ es)

event-cases : (es : List Event) → (es ≡ []) ⊎ ((e : Event) × (rest : List Event) × (es ≡ e ∷ rest))
event-cases [] = inl refl
event-cases (e ∷ rest) = inr (e, rest, refl)

find-Busy : (ws : List Worker) → (remaining ws ≡ 0) ⊎ Busy ws
unfolding remaining
find-Busy [] = inl refl
find-Busy (w ∷ ws) = elim (event-cases w.rest) [
  | inr (e, es, next) ↦ inr (0, w, e, es, refl, next)
  | inl done ↦ elim (find-Busy ws) [
    | inl none_left ↦ inl (omega (arith, none_left, ap length done))
    | inr (i, v, e, es, found, next) ↦ inr (suc i, v, e, es, found, next)
  ]
]

find_owner :
    (ws : List Worker)
    → count_owners ws ≡ 1
    → (i : ℕ) × (w : Worker) × (get_elem? ws i ≡ some w) × (w.owns ≡ true)
unfolding count_owners
find_owner [] h = absurd (omega arith)
find_owner (w ∷ ws) h = elim (Bool-cases w.owns) [
  | inl e ↦ (0, w, refl, e)
  | inr e ↦
      let (i, v, found, owns) = find_owner ws (omega (arith, h, ap bit e)) in
      (suc i, v, found, owns)
]

locked_again :
    (h : Held) (es : List Event) (kept : Bool) → h.mutex ≡ true → audit h (lock ∷ es) ≢ some kept
unfolding audit use_event
locked_again h es kept m a = ground arith

-- A thread that owns the mutex has something left to do, and it is not to lock it.
owner-next :
    (h : Held) (rest : List Event) (kept : Bool)
    → h.mutex ≡ true
    → audit h rest ≡ some kept
    → (e : Event) × (es : List Event) × (rest ≡ e ∷ es) × MayHappen e true
unfolding audit
owner-next h [] kept m a = absurd (ground arith)
owner-next h (e ∷ es) kept m a = (
  e,
  es,
  refl,
  λ is_lock. absurd (locked_again h es kept m (ap (λ x. audit h (x ∷ es)) (sym is_lock) ∙ a)),
)

-- A thread that is done, and has given the mutex and its context back.
pub record IsDone (w : Worker) : Type 0 where
  pub nothing_left : w.rest ≡ []
  pub unlocked : w.owns ≡ false
  pub destroyed : w.lives ≡ false

audit-nil : (h : Held) (kept : Bool) → audit h [] ≡ some kept → (h.mutex ≡ false) × (h.ctx ≡ false)
unfolding audit
audit-nil h kept a = ground arith

IsSound-IsDone : (w : Worker) → IsSound w → w.rest ≡ [] → IsDone w
IsSound-IsDone w own e =
    let (mutex, ctx) = audit-nil own.held own.kept (ap (audit own.held) (sym e) ∙ own.allowed) in
    record {
      nothing_left = e;
      unlocked = sym own.same_mutex ∙ mutex;
      destroyed = sym own.same_ctx ∙ ctx;
    }

All-IsDone : (ws : List Worker) → remaining ws ≡ 0 → All IsSound ws → All IsDone ws
unfolding remaining
All-IsDone [] none_left sound = tt
All-IsDone (w ∷ ws) none_left (own, sound) = elim (event-cases w.rest) [
  | inl e ↦ (IsSound-IsDone w own e, All-IsDone ws (omega arith) sound)
  | inr (e, es, next) ↦ absurd (omega (arith, none_left, ap length next))
]

-- However the threads of the requests interleave, each step takes one event of what they have left,
-- so that all runs end after the same number of steps; and in every reachable state either all
-- threads are done, with no mutex and no context left, or some thread can go on.
pub Run-progress :
    (requests : List (HandlerCalls × Global)) (n : ℕ) (s : System)
    → Run n (begin requests) s
    → (n + remaining s.workers ≡ remaining (begin requests).workers)
      × (((s.locked ≡ false) × All IsDone s.workers) ⊎ ((t : System) × Step s t))
Run-progress requests n s run =
    let safe = Run-IsSafe n (begin requests) s run (begin-IsSafe requests) in
    (
      remaining-Run n (begin requests) s run,
      elim (Bool-cases s.locked) [
        | inl locked ↦
            let (i, w, found, owns) = find_owner s.workers (safe.one_owner ∙ ap bit locked) in
            let own = All-get IsSound s.workers i w found safe.sound in
            let (e, es, next, may) =
              owner-next own.held w.rest own.kept (own.same_mutex ∙ owns) own.allowed in
            inr (_, step i w e es found next (λ is_lock. locked ∙ may is_lock))
        | inr unlocked ↦ elim (find-Busy s.workers) [
          | inl none_left ↦ inl (unlocked, All-IsDone s.workers none_left safe.sound)
          | inr (i, w, e, es, found, next) ↦ inr (_, step i w e es found next (λ is_lock. unlocked))
        ]
      ],
    )
