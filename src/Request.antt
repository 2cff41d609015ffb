-- ===== src/Request.antt =====
-- `hbf_qjs_create_request` of hbf/qjs/bindings/request.c. Texts are without their NUL.
pub mod Fields
use hbf.Base.{
  bytes_eq, ℕ, Bool, true, false, not, Option, none, some, List, [], ◌∷◌, Bytes, codes, ltb,
  set_property, if◌then◌else◌,
}

-- The fields of mg_request_info that are read; `none` is NULL. A `content_length` that is not
-- positive is 0.
pub record RequestInfo : Type 0 where
  pub request_method : Option Bytes
  pub local_uri : Option Bytes
  pub query_string : Option Bytes
  pub http_headers : List (Bytes × Bytes)
  pub content_length : ℕ

pub data Value : Type 0 where
  text : Bytes → Value
  object : List (Bytes × Bytes) → Value

abbrev pub Properties : Type 0
Properties = List (Bytes × Value)

-- What the function returns.
pub data Request : Type 0 where
  js_null : Request
  js_exception : Request
  request : Properties → Request

-- The answers: whether neither argument is NULL, the request's fields, whether the three objects
-- and the buffer are allocated, and the bytes that mg_read gives, none where it fails.
pub record RequestCalls : Type 0 where
  pub given : Bool
  pub info : Option RequestInfo
  pub new_req : Bool
  pub new_headers : Bool
  pub new_params : Bool
  pub malloc : Bool
  pub mg_read : ℕ → Bytes

unfoldable pub text_or : Bytes → Option Bytes → Value
text_or default none = text default
text_or default (some s) = text s

-- JS_SetPropertyStr with a string on an object of JS_NewObject: `__proto__` meets the setter of
-- Object.prototype, which ignores a string; every other name becomes a property of the object.
unfoldable pub set_header_property : Bytes → Bytes → List (Bytes × Bytes) → List (Bytes × Bytes)
set_header_property name value headers =
    if bytes_eq name (codes "__proto__") then headers else set_property name value headers

-- The loop over the headers.
unfoldable pub set_headers : List (Bytes × Bytes) → List (Bytes × Bytes) → List (Bytes × Bytes)
unfolding set_header_property
set_headers [] headers = headers
set_headers ((name, value) ∷ rest) headers =
    set_headers rest (set_header_property name value headers)

-- "Read request body"
unfoldable pub read_body : RequestCalls → ℕ → Bytes
read_body calls content_length =
    if not (ltb 0 content_length)
    then []
    else if not calls.malloc
    then []
    else calls.mg_read content_length

-- "Set method", "Set path", "Set query string"
unfoldable pub set_line : RequestInfo → Properties → Properties
unfolding text_or
set_line ri req = set_property (codes "query") (text_or [] ri.query_string) (
    set_property (codes "path") (text_or (codes "/") ri.local_uri)
      (set_property (codes "method") (text_or (codes "GET") ri.request_method) req))

-- "Create headers object"
unfoldable pub set_headers_object : RequestCalls → RequestInfo → Properties → Properties
unfolding set_headers
set_headers_object calls ri req =
    if calls.new_headers
    then set_property (codes "headers") (object (set_headers ri.http_headers [])) req
    else req

-- "Create empty params object"
unfoldable pub set_params_object : RequestCalls → Properties → Properties
set_params_object calls req =
    if calls.new_params then set_property (codes "params") (object []) req else req

unfoldable pub hbf_qjs_create_request : RequestCalls → Request
unfolding set_line set_headers_object set_params_object read_body
hbf_qjs_create_request calls = if not calls.given then js_null else elim calls.info [
  | none ↦ js_null
  | some ri ↦
      if not calls.new_req
      then js_exception
      else request (
          set_property (codes "body") (text (read_body calls ri.content_length))
            (set_params_object calls (set_headers_object calls ri (set_line ri []))))
]
