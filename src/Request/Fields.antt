-- ===== src/Request/Fields.antt =====
-- What JavaScript reads of a request.
use hbf.Base.{
  bytes_eq_iff, ◌≡◌, refl, ◌∙◌, true, Option, none, some, List, [], ◌∷◌, Bytes, bytes_eq, codes,
  get_property, set_property, get_property-set_property, if◌then◌else◌, arith,
}
use hbf.Request.{
  set_header_property, RequestInfo, Value, text, object, Properties, request, RequestCalls, text_or,
  set_headers, read_body, set_line, set_headers_object, set_params_object, hbf_qjs_create_request,
}

-- The value of the last header with a name.
unfoldable pub last_value : Bytes → List (Bytes × Bytes) → Option Bytes
last_value q [] = none
last_value q ((name, value) ∷ rest) = elim (last_value q rest) [
  | some later ↦ some later
  | none ↦ if bytes_eq name q then some value else none
]

-- What a script reads of a header: there is none with the name `__proto__`.
unfoldable pub header_value : Bytes → List (Bytes × Bytes) → Option Bytes
unfolding last_value
header_value q hs = if bytes_eq q (codes "__proto__") then none else last_value q hs

get_property-set_headers :
    (q : Bytes) (hs headers : List (Bytes × Bytes))
    → get_property q (set_headers hs headers)
      ≡ (elim (header_value q hs) [ some value ↦ some value | none ↦ get_property q headers ])
unfolding set_headers header_value last_value
get_property-set_headers q [] headers = ground arith
get_property-set_headers q ((name, value) ∷ rest) headers = ground (
  arith,
  bytes_eq_iff name q,
  bytes_eq_iff name (codes "__proto__"),
  bytes_eq_iff q (codes "__proto__"),
  get_property-set_headers q rest (set_header_property name value headers),
  get_property-set_property q name value headers,
)

headers_lem :
    (q : Bytes) (hs : List (Bytes × Bytes)) → get_property q (set_headers hs []) ≡ header_value q hs
headers_lem q hs = get_property-set_headers q hs [] ∙ same (header_value q hs)
  where
    same : (o : Option Bytes) → (elim o [ some value ↦ some value | none ↦ get_property q [] ]) ≡ o
    same none = unfold get_property in refl
    same (some value) = refl

-- The fields of a request by name, where all objects are allocated.
unfoldable pub field_of : RequestCalls → RequestInfo → Bytes → Option Value
field_of calls ri q =
    if bytes_eq (codes "body") q
    then some (text (read_body calls ri.content_length))
    else if bytes_eq (codes "params") q
    then some (object [])
    else if bytes_eq (codes "headers") q
    then some (object (set_headers ri.http_headers []))
    else if bytes_eq (codes "query") q
    then some (text_or [] ri.query_string)
    else if bytes_eq (codes "path") q
    then some (text_or (codes "/") ri.local_uri)
    else if bytes_eq (codes "method") q
    then some (text_or (codes "GET") ri.request_method)
    else none

get_property-nil : (q : Bytes) → get_property {V = Value} q [] ≡ none
unfolding get_property
get_property-nil q = refl

-- The properties that the function sets.
abbrev properties : RequestCalls → RequestInfo → Properties
properties calls ri =
    set_property (codes "body") (text (read_body calls ri.content_length))
      (set_params_object calls (set_headers_object calls ri (set_line ri [])))

created :
    (calls : RequestCalls) (ri : RequestInfo)
    → calls.given ≡ true
    → calls.info ≡ some ri
    → calls.new_req ≡ true
    → hbf_qjs_create_request calls ≡ request (properties calls ri)
unfolding hbf_qjs_create_request
created calls ri given info new_req =
    rw (given, info, new_req, hbf_qjs_create_request)
      (λ i.
        request
          (properties (record calls { given = given i; info = info i; new_req = new_req i }) ri))

get_property-properties :
    (calls : RequestCalls) (ri : RequestInfo) (q : Bytes)
    → calls.new_headers ≡ true
    → calls.new_params ≡ true
    → get_property q (properties calls ri) ≡ field_of calls ri q
unfolding set_params_object set_headers_object set_line field_of
get_property-properties calls ri q new_headers new_params =
    rw (new_headers, new_params) (simp (get_property-set_property, get_property-nil))

-- Where all objects are allocated, a request has exactly the fields method, path, query, headers,
-- params and body of its own, with GET, / and nothing for what is missing, and a name other than
-- __proto__ gives in headers the value of the last header with this name; __proto__ gives none.
pub hbf_qjs_create_request_lem :
    (calls : RequestCalls) (ri : RequestInfo) (q name : Bytes)
    → calls.given ≡ true
    → calls.info ≡ some ri
    → calls.new_req ≡ true
    → calls.new_headers ≡ true
    → calls.new_params ≡ true
    → (req : Properties) × (hbf_qjs_create_request calls ≡ request req)
      × (get_property q req ≡ field_of calls ri q)
      × (get_property name (set_headers ri.http_headers []) ≡ header_value name ri.http_headers)
hbf_qjs_create_request_lem calls ri q name given info new_req new_headers new_params = (
  properties calls ri,
  created calls ri given info new_req,
  get_property-properties calls ri q new_headers new_params,
  headers_lem name ri.http_headers,
)
