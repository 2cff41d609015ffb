-- ===== src/Engine/Ownership.antt =====
-- Who frees what a context is made of.
use hbf.Base.{arith, ℕ, ◌≡◌, refl, Bool, true, false, Bool-cases, inl, inr, Option, none, some}
use hbf.Engine.{
  EngineConfig, Holdings, QjsCtx, CreateCalls, hbf_qjs_ctx_create_internal, hbf_qjs_ctx_create,
  hbf_qjs_ctx_create_with_db, hbf_qjs_ctx_destroy,
}

abbrev pub nothing : Holdings
nothing = record { wrapper = false; runtime = false; js_context = false; own_database = false }

-- What is held once the context that came of a creation, if one did, has been destroyed.
unfoldable pub after_destroy : Option QjsCtx × Holdings → Holdings
unfolding hbf_qjs_ctx_destroy
after_destroy (none, h) = h
after_destroy (some c, h) = hbf_qjs_ctx_destroy c h

destroy-create_internal_ready :
    (mem_limit timeout : ℕ) (opens partial db own_db : Bool)
    → after_destroy (
        hbf_qjs_ctx_create_internal
          (record { mem_limit_bytes = mem_limit; timeout_ms = timeout; initialized = true })
          (record {
            calloc = true;
            new_runtime = true;
            new_context = true;
            opens = opens;
            partial = partial;
          })
          db
          own_db
          nothing)
      ≡ nothing
unfolding hbf_qjs_ctx_create_internal after_destroy hbf_qjs_ctx_destroy
destroy-create_internal_ready mem_limit timeout opens partial true own_db = refl
destroy-create_internal_ready mem_limit timeout opens partial false false = refl
destroy-create_internal_ready mem_limit timeout true partial false true = refl
destroy-create_internal_ready mem_limit timeout false true false true = refl
destroy-create_internal_ready mem_limit timeout false false false true = refl

destroy-create_internal :
    (g : EngineConfig) (calls : CreateCalls) (db own_db : Bool)
    → after_destroy (hbf_qjs_ctx_create_internal g calls db own_db nothing) ≡ nothing
unfolding hbf_qjs_ctx_create_internal after_destroy
destroy-create_internal g calls db own_db = elim (Bool-cases g.initialized) [
  | inr a ↦ rw a refl
  | inl a ↦ elim (Bool-cases calls.calloc) [
    | inr b ↦ rw (a, b) refl
    | inl b ↦ elim (Bool-cases calls.new_runtime) [
      | inr c ↦ rw (a, b, c) refl
      | inl c ↦ elim (Bool-cases calls.new_context) [
        | inr d ↦ rw (a, b, c, d) refl
        | inl d ↦
            rw (a, b, c, d)
              (destroy-create_internal_ready g.mem_limit_bytes g.timeout_ms calls.opens
                calls.partial db own_db)
      ]
    ]
  ]
]

-- Whether a creation gives a context that closes its database.
unfoldable pub owns_database : Option QjsCtx × Holdings → Bool
owns_database (none, h) = false
owns_database (some c, h) = c.own_db

destroy-create_with_db :
    (g : EngineConfig) (calls : CreateCalls) (db : Bool)
    → (after_destroy (hbf_qjs_ctx_create_with_db g calls db nothing) ≡ nothing)
      × (owns_database (hbf_qjs_ctx_create_with_db g calls db nothing) ≡ false)
unfolding hbf_qjs_ctx_create_with_db after_destroy owns_database hbf_qjs_ctx_create_internal
destroy-create_with_db g calls false = (refl, refl)
destroy-create_with_db g calls true = (destroy-create_internal g calls true false, ground arith)

-- The creation frees what it has made where it fails, and otherwise the destruction does: with the
-- wrapper, the runtime and the context, and with the database exactly where the context opened it.
-- A context on a database that it is given does not close this database.
pub hbf_qjs_ctx_destroy-create_internal :
    (g : EngineConfig) (calls : CreateCalls) (db own_db : Bool)
    → (after_destroy (hbf_qjs_ctx_create_internal g calls db own_db nothing) ≡ nothing)
      × (after_destroy (hbf_qjs_ctx_create g calls nothing) ≡ nothing)
      × (after_destroy (hbf_qjs_ctx_create_with_db g calls db nothing) ≡ nothing)
      × (owns_database (hbf_qjs_ctx_create_with_db g calls db nothing) ≡ false)
unfolding hbf_qjs_ctx_create
hbf_qjs_ctx_destroy-create_internal g calls db own_db = (
  destroy-create_internal g calls db own_db,
  destroy-create_internal g calls false true,
  (destroy-create_with_db g calls db).0,
  (destroy-create_with_db g calls db).1,
)
