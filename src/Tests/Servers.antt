-- ===== src/Tests/Servers.antt =====
-- A bundle with a server.js of one byte: started and requested.
use hbf.Base.{
  ◌*◌, ◌^◌, ◌≤◌, ◌<◌, ◌≡◌, refl, true, false, some, [], ◌∷◌, ◌++◌, Bytes, All, codes, bytes_eq,
  length, arith,
}
use hbf.Packer.{FileEntry, Bundle, pack_entry, pack_entries, bundle_pack, compress_bundle}
use hbf.Packer.Words.{u64, put_u32}
use hbf.Overlay.Read.{Global}
use hbf.Overlay.Schema.{count_versions, count_ids}
use hbf.Overlay.ReadBack.{read_calls}
use hbf.Handler.{hbf_qjs_request_handler}
use hbf.Handler.Audit.{replies}
use hbf.Handler.Answers.{answering}
use hbf.Migrate.{Conn}
use hbf.Migrate.Merged.{every_call, IsMigratable, IsRoomy, last_content}
use hbf.DbInit.{opened, hbf_db_init, hbf_db_close}
use hbf.Delivery.Start.{starting}
use hbf.Delivery.{hbf_qjs_request_handler-bundle_pack}
use hbf.Tests.Sorting.{insertion_qsort, insertion_sort, insert}
use hbf.Tests.Store.{one_file, one_file-IsConsistent}
use hbf.Tests.Hashes.{stale}
use hbf.Tests.Bundles.{calls, stored, stored_uncompress, stored_round_trip, new_bundle}
use hbf.Tests.Deliveries.{no_database}

abbrev server : FileEntry
server = record { path = codes "hbf/server.js"; content = codes "x"; data_len = 1 }

abbrev server_bundle : Bundle
server_bundle = record { entries = server ∷ []; capacity = 1 }

abbrev packed_server : Bytes
packed_server = put_u32 1 ++ (pack_entry server ++ [])

packs : bundle_pack insertion_qsort true server_bundle ≡ some (packed_server, 26)
unfolding bundle_pack insertion_sort insert pack_entries put_u32
packs = refl

compresses : compress_bundle stored true packed_server 26 9 ≡ some (0x78 ∷ packed_server)
unfolding compress_bundle pack_entry put_u32
compresses = refl

server_small :
    (length packed_server < 2 ^ 64)
    × (length packed_server ≤ u64 (length (0x78 ∷ packed_server) * 10))
unfolding pack_entry put_u32
server_small = (omega arith, omega arith)

server-IsMigratable : All IsMigratable (insertion_qsort.sort server_bundle.entries)
unfolding insertion_sort insert
server-IsMigratable = (
  record {
    packable = record { name_fits = omega arith; same_len = refl; data_fits = omega arith };
    text = ground arith;
    name_len = omega arith;
    content_len = omega arith;
  },
  tt,
)

server_room : IsRoomy (length (insertion_qsort.sort server_bundle.entries)) one_file
unfolding insertion_sort insert count_versions count_ids
server_room = record { ids = omega arith; versions = λ q. ground arith }

server_last :
    last_content (codes "hbf/server.js") (insertion_qsort.sort server_bundle.entries)
    ≡ some (codes "x")
unfolding insertion_sort insert last_content bytes_eq
server_last = refl

hbf_qjs_request_handler-bundle_pack_example :
    (conn : Conn) × (g' : Global) × (hbf_db_init stored_uncompress
        (starting (every_call stale (λ i. 11) 12) one_file)
        (0x78 ∷ packed_server)
        false
        no_database
      ≡ opened conn g')
    × (hbf_db_init stored_uncompress
          (starting calls (hbf_db_close conn))
          (0x78 ∷ packed_server)
          false
          no_database
        ≡ opened conn g')
    × ((hbf_qjs_request_handler (answering read_calls 201) g').status ≡ 201)
    × (replies (hbf_qjs_request_handler (answering read_calls 201) g').events ≡ 201 ∷ [])
hbf_qjs_request_handler-bundle_pack_example =
    hbf_qjs_request_handler-bundle_pack insertion_qsort stored server_bundle 9 stored_round_trip
      packs compresses server_small.0 server_small.1 stale (λ i. 11) 12 calls one_file no_database
      120 [] 201 one_file-IsConsistent refl refl refl refl server-IsMigratable server_room
      (new_bundle (0x78 ∷ packed_server)) server_last
