-- ===== src/Main/Shutdown.antt =====
-- That `main` stops what it has started, the last first.
use hbf.Base.{
  suc, ℕ, ◌≡◌, refl, Bool, true, false, ◌&&◌, Bool-cases, inl, inr, Option, none, some, List, [],
  ◌∷◌, ◌==◌, if◌then◌else◌,
}
use hbf.Config.{Config, Parse, help, refused, parsed}
use hbf.Main.{
  Service, database, engine, http_server, Step, start, stop, listen, serve_requests, MainCalls,
  run_services, main,
}

unfoldable rank : Service → ℕ
rank database = 0
rank engine = 1
rank http_server = 2

-- The services that run, the last started first, through a sequence of steps: `none` where a
-- service is started before the ones that it needs, is stopped before one that was started after
-- it, or requests are served without all three.
unfoldable pub through : List Service → List Step → Option (List Service)
unfolding rank
through running [] = some running
through [] (start s ∷ steps) = if rank s == 0 then through (s ∷ []) steps else none
through [] (stop s ∷ steps) = none
through [] (listen ∷ steps) = none
through [] (serve_requests ∷ steps) = none
through (r ∷ running) (start s ∷ steps) =
    if rank s == suc (rank r) then through (s ∷ r ∷ running) steps else none
through (r ∷ running) (stop s ∷ steps) = if rank s == rank r then through running steps else none
through (r ∷ running) (listen ∷ steps) = if rank r == 2 then through (r ∷ running) steps else none
through (r ∷ running) (serve_requests ∷ steps) =
    if rank r == 2 then through (r ∷ running) steps else none

unfoldable pub serves : List Step → Bool
serves [] = false
serves (start s ∷ steps) = serves steps
serves (stop s ∷ steps) = serves steps
serves (listen ∷ steps) = serves steps
serves (serve_requests ∷ steps) = true

-- What the arguments and the calls let the program do.
unfoldable pub starts_up : MainCalls → Parse → Bool
starts_up calls help = false
starts_up calls refused = false
starts_up calls (parsed config) =
    calls.db_init && (calls.qjs_init && (calls.server_create && calls.server_start))

unfoldable pub asks_help : Parse → Bool
asks_help help = true
asks_help refused = false
asks_help (parsed config) = false

run_services-through :
    (calls : MainCalls) (config : Config)
    → (through [] (run_services calls).steps ≡ some [])
      × (serves (run_services calls).steps ≡ starts_up calls (parsed config))
      × ((run_services calls).status ≡ (if starts_up calls (parsed config) then 0 else 1))
unfolding run_services through serves starts_up
run_services-through calls config = elim (Bool-cases calls.db_init) [
  | inr a ↦ rw a (refl, refl, refl)
  | inl a ↦ elim (Bool-cases calls.qjs_init) [
    | inr b ↦ rw (a, b) (refl, refl, refl)
    | inl b ↦ elim (Bool-cases calls.server_create) [
      | inr c ↦ rw (a, b, c) (refl, refl, refl)
      | inl c ↦ elim (Bool-cases calls.server_start) [
        | inr d ↦ rw (a, b, c, d) (refl, refl, refl)
        | inl d ↦ rw (a, b, c, d) (refl, refl, refl)
      ]
    ]
  ]
]

-- On every outcome the program starts the database, the engine and the server in this order, each
-- only after the one before, stops all that it has started in the reverse order, serves requests
-- exactly where the arguments are accepted and all four calls succeed, and exits with 0 exactly
-- there and where help is asked for, and with 1 otherwise.
pub main_lem :
    (calls : MainCalls) (parse : Parse)
    → (through [] (main calls parse).steps ≡ some [])
      × (serves (main calls parse).steps ≡ starts_up calls parse)
      × ((main calls parse).status
          ≡ (if asks_help parse then 0 else if starts_up calls parse then 0 else 1))
unfolding main asks_help
main_lem calls help = unfold through serves starts_up in (refl, refl, refl)
main_lem calls refused = unfold through serves starts_up in (refl, refl, refl)
main_lem calls (parsed config) = run_services-through calls config
