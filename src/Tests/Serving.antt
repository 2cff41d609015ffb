-- ===== src/Tests/Serving.antt =====
-- The start of the program's database and the static files on concrete runs.
use hbf.Base.{bytes_eq, ◌≡◌, refl, true, false, none, ◌∷◌, codes}
use hbf.Overlay.Read.{Global}
use hbf.Migrate.{compute_bundle_id}
use hbf.Server.{mime_of}
use hbf.DbInit.{InitCalls, hbf_db_init}
use hbf.Migrate.Settle.{IsApplied}
use hbf.DbInit.Opens.{Initialised, hbf_db_init-Initialised}
use hbf.Tests.Store.{one_file, one_file-IsConsistent}
use hbf.Tests.Bundles.{stored_uncompress, calls, packed}
use hbf.Tests.Hashes.{stale}

abbrev no_global : Global
no_global = record { g_overlay_db = none }

abbrev init_calls : InitCalls
init_calls = record {
  opens = true;
  enables_wal = false;
  enables_foreign_keys = true;
  applies_schema = true;
  migrate = calls;
  prepare_schema = true;
  step_schema = true;
  tables = 2;
  stored = one_file;
}

hbf_db_init-Initialised_example :
    Initialised
      (compute_bundle_id stale (0x78 ∷ packed))
      one_file
      (IsApplied stored_uncompress calls (0x78 ∷ packed) one_file)
      no_global
      (hbf_db_init stored_uncompress init_calls (0x78 ∷ packed) false no_global)
hbf_db_init-Initialised_example =
    hbf_db_init-Initialised stored_uncompress init_calls (0x78 ∷ packed) false no_global
      one_file-IsConsistent

css-mime : mime_of (46 ∷ codes "css") ≡ codes "text/css"
unfolding mime_of bytes_eq
css-mime = refl
