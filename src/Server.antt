-- ===== src/Server.antt =====
-- The handlers of hbf/http/server.c that need no JavaScript.
pub mod Mime
pub mod Serve
use hbf.Base.{
  print_size, ℕ, zero, suc, ◌-◌, Bool, true, false, not, ◌||◌, Option, none, some, List, [], ◌∷◌,
  ◌++◌, Bytes, codes, bytes_eq, c_str, length, take, drop, ◌==◌, if◌then◌else◌,
}
use hbf.Overlay.Read.{Read, ReadCalls, Global, found, missing, overlay_fs_read_file}
use hbf.Response.{crlf}

-- strrchr(path, '.')
unfoldable pub last_dot : Bytes → Option Bytes
last_dot [] = none
last_dot (c ∷ cs) =
    let rest = last_dot cs in
    elim rest [ some ext ↦ some ext | none ↦ if c == 46 then some (c ∷ cs) else none ]

unfoldable pub mime_of : Bytes → Bytes
mime_of ext =
    if bytes_eq ext (codes ".html")
    then codes "text/html"
    else if bytes_eq ext (codes ".css")
    then codes "text/css"
    else if bytes_eq ext (codes ".js")
    then codes "application/javascript"
    else if bytes_eq ext (codes ".json")
    then codes "application/json"
    else if bytes_eq ext (codes ".png")
    then codes "image/png"
    else if bytes_eq ext (codes ".jpg") || bytes_eq ext (codes ".jpeg")
    then codes "image/jpeg"
    else if bytes_eq ext (codes ".svg")
    then codes "image/svg+xml"
    else if bytes_eq ext (codes ".ico")
    then codes "image/x-icon"
    else if bytes_eq ext (codes ".woff")
    then codes "font/woff"
    else if bytes_eq ext (codes ".woff2")
    then codes "font/woff2"
    else if bytes_eq ext (codes ".wasm")
    then codes "application/wasm"
    else if bytes_eq ext (codes ".md")
    then codes "text/markdown"
    else codes "application/octet-stream"

unfoldable pub get_mime_type : Bytes → Bytes
unfolding last_dot mime_of
get_mime_type path = elim (last_dot path) [
  | none ↦ codes "application/octet-stream"
  | some ext ↦ mime_of ext
]

-- What a handler does to the connection: `mg_send_http_error`, or the bytes that it writes, with
-- the status that it returns.
pub data Reply : Type 0 where
  http_error : ℕ → Reply
  written : ℕ → Bytes → Reply

-- "Map URL to archive path": `snprintf` keeps 511 characters.
unfoldable pub map_path : Bytes → Bytes
map_path uri = if bytes_eq uri (codes "/") then codes "static/index.html" else take 511 (drop 1 uri)

-- The reply's bytes for a file.
unfoldable pub file_reply : Bytes → Bytes → Bytes
unfolding print_size
file_reply mime_type content =
    codes "HTTP/1.1 200 OK"
    ++ (crlf
        ++ (codes "Content-Type: "
            ++ (mime_type
                ++ (crlf
                    ++ (codes "Content-Length: "
                        ++ (print_size (length content)
                            ++ (crlf
                                ++ (codes "Cache-Control: public, max-age=3600"
                                    ++ (crlf
                                        ++ (codes "Connection: close"
                                            ++ (crlf ++ (crlf ++ content))))))))))))

-- The file behind a path; `take size` are the bytes that `mg_write` sends of the buffer.
unfoldable pub serve : Bytes → Read → Reply
unfolding file_reply get_mime_type
serve path missing = http_error 404
serve path (found none size) = written 200 (file_reply (get_mime_type path) [])
serve path (found (some buffer) size) =
    written 200 (file_reply (get_mime_type path) (take size buffer))

-- `static_handler`; `none` is a connection without request info, and otherwise `local_uri`.
unfoldable pub static_handler : ReadCalls → Global → Option Bytes → Reply
unfolding map_path overlay_fs_read_file serve
static_handler calls g none = http_error 500
static_handler calls g (some uri) =
    serve (map_path uri) (overlay_fs_read_file calls g (some (map_path uri)) 1 true)

unfoldable pub health_handler : Reply
unfolding print_size
health_handler =
    let response = codes "{\"status\":\"ok\"}" in
    written 200 (
      codes "HTTP/1.1 200 OK"
      ++ (crlf
          ++ (codes "Content-Type: application/json"
              ++ (crlf
                  ++ (codes "Content-Length: "
                      ++ (print_size (length response)
                          ++ (crlf
                              ++ (codes "Connection: close" ++ (crlf ++ (crlf ++ response))))))))))

-- hbf_server_t: the port, the database, and whether `ctx` is a running server.
pub record HttpServer : Type 0 where
  pub port : ℕ
  pub has_db : Bool
  pub running : Bool

-- `none` is NULL.
unfoldable pub hbf_server_create : Bool → ℕ → Bool → Option HttpServer
hbf_server_create calloc port has_db =
    if not has_db
    then none
    else if not calloc
    then none
    else some (record { port = port; has_db = has_db; running = false })

-- `none` is the -1; `mg_start` says whether civetweb starts.
unfoldable pub hbf_server_start : Bool → Option HttpServer → Option HttpServer
hbf_server_start mg_start none = none
hbf_server_start mg_start (some server) =
    if not mg_start then none else some (record server { running = true })

unfoldable pub hbf_server_stop : HttpServer → HttpServer
hbf_server_stop server = if server.running then record server { running = false } else server
