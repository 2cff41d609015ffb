-- ===== src/Tests/Runs.antt =====
-- A run of two writes, a failure between them, from the empty database.
use hbf.Base.{bytes_eq, false, ◌≡◌, refl, true, some, List, [], ◌∷◌, ◌++◌, codes, length}
use hbf.Overlay.Schema.{select_file_id, Version, empty_db}
use hbf.Overlay.Write.{failed, overlay_fs_write}
use hbf.Overlay.Read.{overlay_fs_read, overlay_fs_read_file, overlay_fs_version_count}
use hbf.Overlay.History.{IsConsistent, empty_db-IsConsistent}
use hbf.Overlay.ReadBack.{read_calls, all_calls}
use hbf.Overlay.Runs.{
  Event, wrote, refused, replay, no_files, Run, start, then_step, writes, fails, first_read,
  completed, Run-refines, Run-append_only,
}
use hbf.Tests.Store.{home, hello, one_file, two_versions, first_write, second_write}

abbrev events : List Event
events = wrote home hello ∷ refused ∷ wrote home (codes "he") ∷ []

-- The second write's statement for the version's number is not prepared.
failing_write :
    overlay_fs_write
      (record all_calls { prepare_get_version = false })
      8
      (some one_file)
      (some home)
      (some (codes "no"))
      2
    ≡ failed one_file
unfolding overlay_fs_write select_file_id bytes_eq
failing_write = refl

run : Run empty_db events two_versions
run = then_step (writes all_calls 7 home (some hello) 5 first_write) (
    then_step
      (fails (record all_calls { prepare_get_version = false }) 8 home (some (codes "no")) 2
        failing_write)
      (then_step (writes all_calls 9 home (some hello) 2 second_write) (start two_versions)))

Run-refines_example :
    (overlay_fs_read read_calls (some two_versions) (some home) true
      ≡ first_read (replay events no_files home))
    × (overlay_fs_read_file read_calls
          (record { g_overlay_db = some two_versions })
          (some home)
          0
          true
        ≡ first_read (replay events no_files home))
    × (overlay_fs_version_count read_calls (some two_versions) (some home)
        ≡ some (length (replay events no_files home)))
Run-refines_example = Run-refines 0 home run

Run-append_only_example :
    (added : List Version) × (two_versions.file_versions ≡ added ++ empty_db.file_versions)
    × (length added ≡ completed events)
    × IsConsistent two_versions
Run-append_only_example = Run-append_only empty_db-IsConsistent run
