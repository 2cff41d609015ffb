-- ===== src/Tests/Program.antt =====
-- The start of the program and the modules on concrete runs.
use hbf.Base.{
  ◌≡◌, refl, true, false, none, some, [], ◌∷◌, ◌++◌, codes, length, ltb, if◌then◌else◌, arith,
}
use hbf.Overlay.ReadBack.{all_calls, written}
use hbf.Config.{Parse, parsed}
use hbf.Main.{MainCalls, main}
use hbf.Main.Shutdown.{through, serves, starts_up, asks_help, main_lem}
use hbf.Modules.{hbf_qjs_module_normalize, hbf_qjs_module_loader}
use hbf.Modules.Resolve.{
  every_source, hbf_qjs_module_normalize_lem, hbf_qjs_module_loader-overlay_fs_write,
}
use hbf.Tests.Store.{home, hello, one_file, two_versions, one_file-IsConsistent, second_write}

-- A start on a port that is taken.
abbrev port_taken : MainCalls
port_taken = record { db_init = true; qjs_init = true; server_create = true; server_start = false }

abbrev plain : Parse
plain = parsed (record { port = 5309; log_level = codes "info"; inmem = false })

main_lem_example :
    (through [] (main port_taken plain).steps ≡ some [])
    × (serves (main port_taken plain).steps ≡ starts_up port_taken plain)
    × ((main port_taken plain).status
        ≡ (if asks_help plain then 0 else if starts_up port_taken plain then 0 else 1))
main_lem_example = main_lem port_taken plain

hbf_qjs_module_normalize_lem_example :
    hbf_qjs_module_normalize true
      (some (codes "hbf" ++ 47 ∷ codes "server.js"))
      (46 ∷ 47 ∷ codes "lib/esc.js")
    ≡ (if ltb (length (codes "hbf" ++ 47 ∷ codes "lib/esc.js")) 512
        then some (codes "hbf" ++ 47 ∷ codes "lib/esc.js")
        else none)
hbf_qjs_module_normalize_lem_example =
    hbf_qjs_module_normalize_lem (codes "hbf") (codes "server.js") (codes "lib/esc.js")
      (ground arith)

hbf_qjs_module_loader-overlay_fs_write_example :
    hbf_qjs_module_loader every_source (λ src. true) (some two_versions) home
    ≡ some (written (some hello) 2)
hbf_qjs_module_loader-overlay_fs_write_example =
    hbf_qjs_module_loader-overlay_fs_write all_calls 9 one_file two_versions home (some hello) 2
      (λ src. true) one_file-IsConsistent second_write (ground arith) refl
