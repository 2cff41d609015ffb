-- ===== src/Handler/Workers/Sound.antt =====
-- What every thread keeps to, and how many of them hold the mutex.
use hbf.Base.{
  All-set, All-get, ℕ, zero, suc, ◌+◌, ◌≤◌, ◌≡◌, refl, ◌∙◌, ap, sym, Bool, true, false, some, List,
  [], ◌∷◌, All, map, set, get_elem?, arith,
}
use mathlib.Core.Option.{some-injective, none-ne-some}
use hbf.Overlay.Read.{Global}
use hbf.Handler.{HandlerCalls}
use hbf.Handler.Audit.{Held, audit, idle}
use hbf.Handler.Release.{hbf_qjs_request_handler_lem}
use hbf.Handler.Workers.Flags.{bit, use_event-flags, use_event-balance, audit-cons}
use hbf.Handler.Workers.{
  Worker, System, owns_after, lives_after, advanced, Step, step, Run, start, then_step, begun,
  begin,
}

-- What is left of a thread's trace is allowed from what it holds; a context lives under the mutex.
pub record IsSound (w : Worker) : Type 0 where
  pub held : Held
  pub kept : Bool
  pub same_mutex : held.mutex ≡ w.owns
  pub same_ctx : held.ctx ≡ w.lives
  pub under : held.ctx ≡ true → held.mutex ≡ true
  pub allowed : audit held w.rest ≡ some kept

pub bit-≤ : (b : Bool) → bit b ≤ 1
bit-≤ true = omega arith
bit-≤ false = omega arith

bit-true : (b : Bool) → 1 ≤ bit b → b ≡ true
bit-true true h = refl
bit-true false h = absurd (omega arith)

-- The threads that hold the mutex.
unfoldable pub count_owners : List Worker → ℕ
count_owners [] = 0
count_owners (w ∷ ws) = bit w.owns + count_owners ws

pub record IsSafe (s : System) : Type 0 where
  pub sound : All IsSound s.workers
  pub one_owner : count_owners s.workers ≡ bit s.locked

count_owners-set :
    (ws : List Worker) (i : ℕ) (w v : Worker)
    → get_elem? ws i ≡ some w
    → count_owners (set ws i v) + bit w.owns ≡ count_owners ws + bit v.owns
unfolding count_owners
count_owners-set [] i w v e = ground arith
count_owners-set (x ∷ ws) zero w v e =
    omega (arith, ap (λ (y : Worker). bit y.owns) (some-injective x w e))
count_owners-set (x ∷ ws) (suc i) w v e = omega (arith, count_owners-set ws i w v e)

pub owner-≤-count_owners :
    (ws : List Worker) (i : ℕ) (w : Worker) → get_elem? ws i ≡ some w → bit w.owns ≤ count_owners ws
unfolding count_owners
owner-≤-count_owners [] i w e = ground arith
owner-≤-count_owners (x ∷ ws) zero w e =
    omega (arith, ap (λ (y : Worker). bit y.owns) (some-injective x w e))
owner-≤-count_owners (x ∷ ws) (suc i) w e = omega (arith, owner-≤-count_owners ws i w e)

step-IsSafe : (s t : System) → Step s t → IsSafe s → IsSafe t
step-IsSafe s t (step i w e es found next may) safe =
    let own = All-get IsSound s.workers i w found safe.sound in
    let (h', u, allowed) =
      audit-cons own.held e es own.kept (ap (audit own.held) (sym next) ∙ own.allowed) in
    let (same_mutex, same_ctx, under) = use_event-flags own.held h' e u own.under in
    let balance = use_event-balance own.held h' e s.locked u may (
      omega
        (arith, owner-≤-count_owners s.workers i w found, safe.one_owner, ap bit own.same_mutex)) in
    record {
      sound =
          All-set IsSound s.workers i _
            (record {
              held = h';
              kept = own.kept;
              same_mutex = same_mutex ∙ ap (owns_after e) own.same_mutex;
              same_ctx = same_ctx ∙ ap (lives_after e) own.same_ctx;
              under = under;
              allowed = allowed;
            })
            safe.sound;
      one_owner = omega (
        arith,
        balance,
        count_owners-set s.workers i w (advanced e es w) found,
        safe.one_owner,
        ap bit own.same_mutex,
        ap (λ (b : Bool). bit (owns_after e b)) own.same_mutex,
      );
    }

begun-IsSound : (r : HandlerCalls × Global) → IsSound (begun r)
begun-IsSound (calls, g) = record {
  held = idle;
  kept = _;
  same_mutex = refl;
  same_ctx = refl;
  under = λ e. e;
  allowed = (hbf_qjs_request_handler_lem calls g).0;
}

pub begin-IsSafe : (requests : List (HandlerCalls × Global)) → IsSafe (begin requests)
unfolding count_owners
begin-IsSafe requests = record { sound = sound requests; one_owner = nobody requests }
  where
    sound : (calls : List (HandlerCalls × Global)) → All IsSound (map begun calls)
    sound [] = tt
    sound (c ∷ cs) = (begun-IsSound c, sound cs)

    nobody : (calls : List (HandlerCalls × Global)) → count_owners (map begun calls) ≡ 0
    nobody [] = refl
    nobody (c ∷ cs) = omega (arith, nobody cs)

pub Run-IsSafe : (n : ℕ) (s t : System) → Run n s t → IsSafe s → IsSafe t
Run-IsSafe _ s _ (start _) safe = safe
Run-IsSafe _ s t (then_step {t = mid} r last) safe =
    step-IsSafe mid t last (Run-IsSafe _ s mid r safe)

-- A thread whose context lives owns the mutex.
lives-owns : (w : Worker) → IsSound w → w.lives ≡ true → w.owns ≡ true
lives-owns w own e = sym own.same_mutex ∙ own.under (own.same_ctx ∙ e)

same_owner :
    (ws : List Worker) (i j : ℕ) (w v : Worker)
    → count_owners ws ≤ 1
    → get_elem? ws i ≡ some w
    → get_elem? ws j ≡ some v
    → w.owns ≡ true
    → v.owns ≡ true
    → i ≡ j
unfolding count_owners
same_owner [] i j w v le a b p q = absurd (none-ne-some w a)
same_owner (x ∷ ws) zero zero w v le a b p q = refl
same_owner (x ∷ ws) zero (suc j) w v le a b p q = absurd (
    omega (
      arith,
      owner-≤-count_owners ws j v b,
      ap bit q,
      ap bit p,
      ap (λ (y : Worker). bit y.owns) (some-injective x w a),
    ))
same_owner (x ∷ ws) (suc i) zero w v le a b p q = absurd (
    omega (
      arith,
      owner-≤-count_owners ws i w a,
      ap bit q,
      ap bit p,
      ap (λ (y : Worker). bit y.owns) (some-injective x v b),
    ))
same_owner (x ∷ ws) (suc i) (suc j) w v le a b p q =
    ap suc (same_owner ws i j w v (omega arith) a b p q)

-- However the threads of any number of requests interleave, the contexts of two of them are never
-- alive at the same time: where two threads have one, they are the same thread, and the mutex is
-- locked.
pub Run-exclusive :
    (requests : List (HandlerCalls × Global)) (n : ℕ) (s : System) (i j : ℕ) (w v : Worker)
    → Run n (begin requests) s
    → get_elem? s.workers i ≡ some w
    → get_elem? s.workers j ≡ some v
    → w.lives ≡ true
    → v.lives ≡ true
    → (i ≡ j) × (s.locked ≡ true)
Run-exclusive requests n s i j w v run a b p q =
    let safe = Run-IsSafe n (begin requests) s run (begin-IsSafe requests) in
    let p' = lives-owns w (All-get IsSound s.workers i w a safe.sound) p in
    let q' = lives-owns v (All-get IsSound s.workers j v b safe.sound) q in
    (
      same_owner s.workers i j w v (omega (arith, safe.one_owner, bit-≤ s.locked)) a b p' q',
      bit-true s.locked
          (omega (arith, safe.one_owner, owner-≤-count_owners s.workers i w a, ap bit p')),
    )
