-- ===== src/Server/Serve.antt =====
-- Static files after writes to the file system.
use hbf.Base.{
  sym, sym, ℕ, ◌≤◌, ◌≡◌, refl, ◌∙◌, ap, true, Option, some, ◌∷◌, Bytes, bytes_eq, bytes_eq_refl,
  length, take, take_all, take-length, length-take, arith,
}
use hbf.Overlay.Schema.{Db}
use hbf.Overlay.Write.{WriteCalls, done, overlay_fs_write}
use hbf.Overlay.Read.{overlay_fs_read, ReadCalls, Global, found, overlay_fs_read_file}
use hbf.Overlay.History.{IsConsistent}
use hbf.Overlay.ReadBack.{
  read_calls, written_lem, overlay_fs_read-overlay_fs_write,
  overlay_fs_read_file-eq-overlay_fs_read,
}
use hbf.Overlay.ReadBack.{written as written_bytes}
use hbf.Server.{written, map_path, file_reply, get_mime_type, serve, static_handler}

-- The handler on a request, by the path that it maps to and what is read there.
static_handler-serve :
    (calls : ReadCalls) (g : Global) (uri : Bytes)
    → static_handler calls g (some uri)
      ≡ serve (map_path uri) (overlay_fs_read_file calls g (some (map_path uri)) 1 true)
unfolding static_handler
static_handler-serve calls g uri = refl

map_path-slash : (c : ℕ) (path : Bytes) → map_path (47 ∷ c ∷ path) ≡ take 511 (c ∷ path)
unfolding map_path bytes_eq
map_path-slash c path = refl

serve-found :
    (path content : Bytes)
    → serve path (found (some content) (length content))
      ≡ written 200 (file_reply (get_mime_type path) content)
unfolding serve
serve-found path content =
    ap (λ b. written 200 (file_reply (get_mime_type path) b)) (take-length content)

-- A request for a path, which is not empty and has at most 511 characters, where the file is there.
pub static_handler-found :
    (db : Db) (c : ℕ) (path content : Bytes)
    → IsConsistent db
    → length (c ∷ path) ≤ 511
    → overlay_fs_read read_calls (some db) (some (c ∷ path)) true
      ≡ found (some content) (length content)
    → static_handler read_calls (record { g_overlay_db = some db }) (some (47 ∷ c ∷ path))
      ≡ written 200 (file_reply (get_mime_type (c ∷ path)) content)
static_handler-found db c path content h short reads =
    static_handler-serve read_calls g (47 ∷ c ∷ path)
    ∙ ap (λ p. serve p (overlay_fs_read_file read_calls g (some p) 1 true)) mapped
    ∙ ap (serve (c ∷ path))
        (overlay_fs_read_file-eq-overlay_fs_read read_calls db (some (c ∷ path)) 1 true h ∙ reads)
    ∙ serve-found (c ∷ path) content
  where
    g : Global
    g = record { g_overlay_db = some db }

    mapped : map_path (47 ∷ c ∷ path) ≡ c ∷ path
    mapped = map_path-slash c path ∙ take_all 511 (c ∷ path) short

-- After a completed write, a request for the path, which is not empty and has at most 511
-- characters, is answered with 200, the type of the path, and exactly the written bytes.
pub static_handler-overlay_fs_write :
    (calls : WriteCalls) (now : ℕ) (db db' : Db) (c : ℕ) (path : Bytes) (buffer : Option Bytes)
    (size : ℕ)
    → IsConsistent db
    → length (c ∷ path) ≤ 511
    → overlay_fs_write calls now (some db) (some (c ∷ path)) buffer size ≡ done db'
    → static_handler read_calls (record { g_overlay_db = some db' }) (some (47 ∷ c ∷ path))
      ≡ written 200 (file_reply (get_mime_type (c ∷ path)) (written_bytes buffer size))
static_handler-overlay_fs_write calls now db db' c path buffer size h short returns =
    static_handler-found db' c path (written_bytes buffer size)
      (written_lem calls now db (c ∷ path) buffer size h returns).consistent short
      (rw (bytes_eq_refl (c ∷ path)) at
        (overlay_fs_read-overlay_fs_write calls now db (c ∷ path) buffer size h returns (c ∷ path)))

-- A request whose path is longer than 511 characters is answered as the request for its first 511
-- characters.
pub static_handler-take :
    (calls : ReadCalls) (g : Global) (c : ℕ) (path : Bytes)
    → static_handler calls g (some (47 ∷ c ∷ path))
      ≡ static_handler calls g (some (47 ∷ take 511 (c ∷ path)))
static_handler-take calls g c path =
    static_handler-serve calls g (47 ∷ c ∷ path)
    ∙ ap (λ p. serve p (overlay_fs_read_file calls g (some p) 1 true)) mapped
    ∙ sym (static_handler-serve calls g (47 ∷ take 511 (c ∷ path)))
  where
    short : length (c ∷ take 510 path) ≤ 511
    short = omega (arith, length-take 510 path)

    mapped : map_path (47 ∷ c ∷ path) ≡ map_path (47 ∷ take 511 (c ∷ path))
    mapped =
        map_path-slash c path
        ∙ sym (map_path-slash c (take 510 path) ∙ take_all 511 (c ∷ take 510 path) short)
