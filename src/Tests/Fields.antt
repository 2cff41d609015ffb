-- ===== src/Tests/Fields.antt =====
-- The request object of a request with a repeated header.
use hbf.Base.{◌≡◌, refl, true, none, some, [], ◌∷◌, codes, take, get_property}
use hbf.Request.{
  RequestInfo, Properties, request, RequestCalls, set_headers, hbf_qjs_create_request,
}
use hbf.Request.Fields.{field_of, header_value, hbf_qjs_create_request_lem}

abbrev posted : RequestInfo
posted = record {
  request_method = some (codes "POST");
  local_uri = none;
  query_string = none;
  http_headers = (codes "A", codes "1") ∷ (codes "A", codes "2") ∷ [];
  content_length = 3;
}

abbrev created : RequestCalls
created = record {
  given = true;
  info = some posted;
  new_req = true;
  new_headers = true;
  new_params = true;
  malloc = true;
  mg_read = λ n. take n (codes "abcd");
}

hbf_qjs_create_request_lem_example :
    (req : Properties) × (hbf_qjs_create_request created ≡ request req)
    × (get_property (codes "body") req ≡ field_of created posted (codes "body"))
    × (get_property (codes "A") (set_headers posted.http_headers [])
        ≡ header_value (codes "A") posted.http_headers)
hbf_qjs_create_request_lem_example =
    hbf_qjs_create_request_lem created posted (codes "body") (codes "A") refl refl refl refl refl
