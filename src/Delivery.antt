-- ===== src/Delivery.antt =====
-- From the files that tools/asset_packer.c packs to the replies of hbf/http/server.c: the packer, the
-- C source that it generates, the start of the database and a static request, one after the other.
pub mod Start
use hbf.Base.{
  bytes_eq, get_property, [], codes, ℕ, ◌*◌, ◌^◌, ◌≤◌, ◌<◌, ◌≡◌, ◌≢◌, refl, ◌∙◌, ap, sym, true,
  false, none, some, List, ◌∷◌, ◌++◌, Bytes, IsByte, All, length,
}
use mathlib.Core.Path.{subst}
use mathlib.Core.Option.{some-injective}
use hbf.Sha256.{Context}
use hbf.Packer.{Bundle, Qsort, Zlib, bundle_pack, compress_bundle}
use hbf.Packer.Words.{u64}
use hbf.Packer.Source.{write_c_source}
use hbf.Packer.Reading.{read_source, read_source-write_c_source}
use hbf.Packer.Program.{PackerCalls, defaults, packer_main}
use hbf.Packer.Program.Files.{Setting, IsSetting, IsFile, arguments, apply}
use hbf.Packer.Program.Outputs.{IsBound, IsSmooth, bundle_of, packer_main_exits}
use hbf.Overlay.Schema.{Db, select_migration}
use hbf.Overlay.Read.{Global, found, overlay_fs_read, overlay_fs_init_global}
use hbf.Overlay.History.{IsConsistent}
use hbf.Overlay.ReadBack.{read_calls, overlay_fs_read_file-eq-overlay_fs_read}
use hbf.Migrate.{
  Uncompress, Conn, MigrateCalls, ended, migrate_ok, compute_bundle_id, overlay_fs_migrate_assets,
}
use hbf.Migrate.Merged.{every_call, IsMigratable, IsRoomy, last_content}
use hbf.Migrate.Again.{overlay_fs_migrate_assets_again}
use hbf.Migrate.Packed.{not_empty, overlay_fs_migrate_assets-bundle_pack}
use hbf.DbInit.{InitCalls, opened, finish_init, after_migrate, hbf_db_init, hbf_db_close}
use hbf.DbInit.Opens.{Initialised, on_opened, hbf_db_init-Initialised}
use hbf.Handler.{hbf_qjs_request_handler}
use hbf.Handler.Audit.{replies}
use hbf.Handler.Release.{hbf_qjs_request_handler_lem}
use hbf.Handler.Answers.{answering, hbf_qjs_request_handler-answering}
use hbf.Server.{written, file_reply, get_mime_type, static_handler}
use hbf.Server.Serve.{static_handler-found}
use hbf.Delivery.Start.{starting, started}

-- A database that starts over a stored one with the bundle of the packer.
module _ (q : Qsort) (z : Zlib) (bundle : Bundle) (level : ℕ) {packed blob : Bytes} {out_len : ℕ}
    (uncompress-compress : (level cap : ℕ) (d : Bytes)
      → length d ≤ cap
      → z.uncompress cap (z.compress level d) ≡ some d)
    (packs : bundle_pack q true bundle ≡ some (packed, out_len))
    (compresses : compress_bundle z true packed out_len level ≡ some blob)
    (fits : length packed < 2 ^ 64) (ratio : length packed ≤ u64 (length blob * 10)) where
  -- Where the packed bundle's last hbf/server.js has bytes, the database that starts with the
  -- packed, compressed bundle, over a consistent stored database with room that has not its id, is
  -- opened where every call succeeds, also a second time; and a request of which all calls succeed
  -- and whose JavaScript does not throw is answered with the status that it leaves, and once.
  pub hbf_qjs_request_handler-bundle_pack :
      (ctx : Context) (now : ℕ → ℕ) (applied_at : ℕ) (again : MigrateCalls) (stored : Db)
      (g : Global) (b : ℕ) (bs : Bytes) (status : ℕ)
      → IsConsistent stored
      → length ctx.buffer ≡ 64
      → length again.ctx.buffer ≡ 64
      → again.prepare_check ≡ true
      → again.step_check ≡ true
      → All IsMigratable (q.sort bundle.entries)
      → IsRoomy (length (q.sort bundle.entries)) stored
      → select_migration (compute_bundle_id ctx blob) stored.migrations ≡ false
      → last_content (codes "hbf/server.js") (q.sort bundle.entries) ≡ some (b ∷ bs)
      → (conn : Conn) × (g' : Global) × (hbf_db_init z.uncompress
            (starting (every_call ctx now applied_at) stored)
            blob
            false
            g
          ≡ opened conn g')
        × (hbf_db_init z.uncompress (starting again (hbf_db_close conn)) blob false g
            ≡ opened conn g')
        × ((hbf_qjs_request_handler (answering read_calls status) g').status ≡ status)
        × (replies (hbf_qjs_request_handler (answering read_calls status) g').events ≡ status ∷ [])
  hbf_qjs_request_handler-bundle_pack ctx now applied_at again stored g b bs status h mem mem'
        prepared steps migratable room fresh last =
      let (conn, starts, restarts, consistent, reads) =
        started q z bundle level uncompress-compress packs compresses fits ratio ctx now applied_at
          again stored g h mem mem' prepared steps migratable room fresh in
      let g' : Global = record { g_overlay_db = some conn.db } in
      let answers = hbf_qjs_request_handler-answering read_calls g' status b bs (
        overlay_fs_read_file-eq-overlay_fs_read read_calls conn.db (some (codes "hbf/server.js")) 1
          true consistent
        ∙ reads (codes "hbf/server.js") (b ∷ bs) last) in
      (
        conn,
        g',
        starts,
        restarts,
        answers,
        (hbf_qjs_request_handler_lem (answering read_calls status) g').1
            ∙ ap (λ (n : ℕ). n ∷ []) answers,
      )

module _ (q : Qsort) (z : Zlib) (calls : PackerCalls) (ss : List Setting) (f : Bytes)
    (fs : List Bytes) (output_source output_header : Bytes) {packed blob : Bytes} {out_len : ℕ}
    (packs : bundle_pack q true (bundle_of calls (f ∷ fs)) ≡ some (packed, out_len))
    (compresses : compress_bundle z true packed out_len (apply ss defaults).compression_level
      ≡ some blob) where
  -- The blob that the program generates is the one of the hypotheses.
  generated_lem :
      IsBound z
      → All IsSetting ss
      → (apply ss defaults).output_source ≡ some output_source
      → (apply ss defaults).output_header ≡ some output_header
      → All IsFile (f ∷ fs)
      → IsSmooth calls
      → (packer_main q z calls (arguments ss ++ f ∷ fs)).generated
        ≡ write_c_source true true output_source output_header (apply ss defaults).symbol_name blob
  generated_lem bound settings source header files smooth =
      let (packed', n', blob', packs', compresses', exits) =
        packer_main_exits q z calls ss f fs output_source output_header bound settings source header
          files smooth in
      let same_pack : (packed', n') ≡ (packed, out_len) = some-injective _ _ (sym packs' ∙ packs) in
      let same_blob : blob' ≡ blob = some-injective _ _ (
        sym compresses'
        ∙ ap
            (λ (p : Bytes × ℕ).
              compress_bundle z true p.0 p.1 (apply ss defaults).compression_level)
            same_pack
        ∙ compresses) in
      ap (λ e. e.generated) exits
      ∙ ap (write_c_source true true output_source output_header (apply ss defaults).symbol_name)
          same_blob

  -- What the packer writes to the source's path from readable files for a proper command line with
  -- two output paths, with a blob of bytes that is no less than a tenth of what it compresses, has
  -- this blob's bytes as the array's constants and its length; a database that starts with the blob,
  -- over a consistent stored database with room that has not this blob's id, opens, where every call
  -- succeeds, and is closed and started again with the same blob unchanged; and a request whose URI
  -- is /static/ and the rest of the path of a file packed under static/, of at most 511 characters,
  -- is answered after each start with 200, the path's type and the last content packed for it.
  pub packer_main-static_handler :
      (uncompress-compress : (level cap : ℕ) (d : Bytes)
        → length d ≤ cap
        → z.uncompress cap (z.compress level d) ≡ some d)
      (ctx : Context) (now : ℕ → ℕ) (applied_at : ℕ) (again : MigrateCalls) (stored : Db)
      (g : Global) (rest content : Bytes)
      → IsBound z
      → All IsSetting ss
      → (apply ss defaults).output_source ≡ some output_source
      → (apply ss defaults).output_header ≡ some output_header
      → bytes_eq output_header output_source ≡ false
      → All (λ c. (c ≢ b'{') × (c ≢ b'=')) (apply ss defaults).symbol_name
      → All IsFile (f ∷ fs)
      → IsSmooth calls
      → All IsByte blob
      → length blob < 10 ^ 20
      → length packed < 2 ^ 64
      → length packed ≤ u64 (length blob * 10)
      → IsConsistent stored
      → length ctx.buffer ≡ 64
      → length again.ctx.buffer ≡ 64
      → again.prepare_check ≡ true
      → again.step_check ≡ true
      → All IsMigratable (q.sort (bundle_of calls (f ∷ fs)).entries)
      → IsRoomy (length (q.sort (bundle_of calls (f ∷ fs)).entries)) stored
      → select_migration (compute_bundle_id ctx blob) stored.migrations ≡ false
      → length (codes "static/" ++ rest) ≤ 511
      → last_content (codes "static/" ++ rest) (q.sort (bundle_of calls (f ∷ fs)).entries)
        ≡ some content
      → ((text : Bytes) × (get_property output_source
              (packer_main q z calls (arguments ss ++ f ∷ fs)).generated.files
            ≡ some text)
          × (read_source text ≡ some (blob, length blob)))
        × ((conn : Conn) × (g' : Global) × (hbf_db_init z.uncompress
                (starting (every_call ctx now applied_at) stored)
                blob
                false
                g
              ≡ opened conn g')
            × (hbf_db_init z.uncompress (starting again (hbf_db_close conn)) blob false g
                ≡ opened conn g')
            × (static_handler read_calls g' (some (codes "/static/" ++ rest))
                ≡ written 200 (file_reply (get_mime_type (codes "static/" ++ rest)) content)))
  packer_main-static_handler uncompress-compress ctx now applied_at again stored g rest content
        bound settings source header two named files smooth bytes small fits ratio h mem mem'
        prepared steps migratable room fresh short last =
      let some_bytes =
        not_empty z q (bundle_of calls (f ∷ fs)) (apply ss defaults).compression_level packs
          compresses ratio in
      let (text, writes, reads) =
        read_source-write_c_source output_source output_header (apply ss defaults).symbol_name blob
          two named bytes some_bytes small in
      let generates = generated_lem bound settings source header files smooth in
      let (conn, starts, restarts, consistent, found_at) =
        started q z (bundle_of calls (f ∷ fs)) (apply ss defaults).compression_level
          uncompress-compress packs compresses fits ratio ctx now applied_at again stored g h mem
          mem' prepared steps migratable room fresh in
      (
        (text, ap (λ e. get_property output_source e.files) generates ∙ writes, reads),
        (
          conn,
          record { g_overlay_db = some conn.db },
          starts,
          restarts,
          static_handler-found conn.db 115 (codes "tatic/" ++ rest) content consistent short
              (found_at (codes "static/" ++ rest) content last),
        ),
      )
