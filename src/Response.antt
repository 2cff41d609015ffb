-- ===== src/Response.antt =====
-- The response object of hbf/qjs/bindings/response.c: its methods for JavaScript, and the reply
-- that it becomes.
pub mod Calls
pub mod Reply
use hbf.Base.{
  print_digits, print_size, ℕ, zero, suc, ◌+◌, ◌-◌, ◌/◌, ◌%◌, ◌^◌, Bool, true, false, not, Option,
  none, some, List, [], ◌∷◌, ◌++◌, Bytes, codes, c_str, length, ltb, leb, if◌then◌else◌,
}

-- hbf_response_t. `header_count` is the length of `headers`, where `none` is a NULL pointer; `body`
-- is `none` where the pointer is NULL, and `body_len` is its length. `status_code` is an `int` as
-- its 32 bits.
pub record Response : Type 0 where
  pub status_code : ℕ
  pub headers : List (Option Bytes)
  pub body : Option Bytes
  pub sent : Bool

-- What hbf_qjs_create_response writes before it makes the object.
abbrev pub fresh_response : Response
fresh_response = record { status_code = 200; headers = []; body = none; sent = false }

-- What hbf_qjs_create_response returns.
pub data ResponseObject : Type 0 where
  js_null : ResponseObject
  js_exception : ResponseObject
  response_object : ResponseObject

-- `hbf_qjs_create_response`, with whether neither argument is NULL, whether the object is made, and
-- what is in the caller's memory. The names behind `header_count` are out of use.
unfoldable pub hbf_qjs_create_response : Bool → Bool → Response → ResponseObject × Response
hbf_qjs_create_response given new_object res_data =
    if not given
    then (js_null, res_data)
    else (if not new_object then js_exception else response_object, fresh_response)

-- A method's result is whether it throws, with the response after it.
abbrev pub Method : Type 0
Method = Response → Bool × Response

-- What the conversion of an argument does to the response: a toString, valueOf or toJSON of the
-- caller's object may itself call methods of the response.
abbrev pub Effect : Type 0
Effect = Response → Response

-- A conversion that calls no method of the response.
abbrev pub no_effect : Effect
no_effect r = r

-- res.status(code); the argument is what JS_ToInt32 gives, `none` where it throws.
unfoldable pub js_res_status : Effect → Option ℕ → Method
js_res_status convert none r = (true, convert r)
js_res_status convert (some status) r = (false, record (convert r) { status_code = status })

-- res.send(body): the text that JS_ToCStringLen gives, and whether `malloc` succeeds.
-- `sent` is checked before the conversion and not after it.
unfoldable pub js_res_send : Effect → Option Bytes → Bool → Method
js_res_send convert text malloc r = if r.sent then (false, r) else elim text [
  | none ↦ (true, convert r)
  | some body ↦
      if malloc
      then (false, record (convert r) { body = some body; sent = true })
      else (false, convert r)
]

-- strdup("Content-Type: application/json")
unfoldable pub content_type : Bool → Option Bytes
content_type strdup = if strdup then some (codes "Content-Type: application/json") else none

-- `headers[header_count++] = strdup(…)`, below the limit.
unfoldable pub add_content_type : Bool → Response → Response
unfolding content_type
add_content_type strdup r =
    if ltb (length r.headers) 32
    then record r { headers = r.headers ++ content_type strdup ∷ [] }
    else r

-- res.json(obj): whether JSON.stringify gives a value, the text that JS_ToCStringLen gives of it,
-- and whether `malloc` and `strdup` succeed. A text that cannot be had is passed over.
unfoldable pub js_res_json : Effect → Bool → Option Bytes → Bool → Bool → Method
unfolding add_content_type
js_res_json convert stringify text malloc strdup r =
    if r.sent then (false, r) else if not stringify then (true, convert r) else elim text [
      | none ↦ (false, convert r)
      | some body ↦
          if malloc
          then (
            false,
            add_content_type strdup (record (convert r) { body = some body; sent = true }),
          )
          else (false, convert r)
    ]

-- snprintf(header, header_len, "%s: %s", name, value)
unfoldable pub header_line : Bytes → Bytes → Bytes
header_line name value = c_str name ++ (codes ": " ++ c_str value)

-- res.set(name, value), with what its two conversions do. The header goes behind those that are
-- there after them, also where these are 32 by then and the array has no place for it.
unfoldable pub js_res_set : Effect → Option Bytes → Option Bytes → Bool → Method
unfolding header_line
js_res_set convert name value malloc r =
    if leb 32 (length r.headers) then (false, r) else elim name [
      | none ↦ (false, convert r)
      | some n ↦ elim value [
        | none ↦ (false, convert r)
        | some v ↦
            if malloc
            then (
              false,
              record (convert r) { headers = (convert r).headers ++ some (header_line n v) ∷ [] },
            )
            else (false, convert r)
      ]
    ]

-- A call of a method from JavaScript whose conversions call no method of the response, with what
-- the calls inside it give. Without the opaque pointer a method throws.
pub data JsCall : Type 0 where
  stray : JsCall
  status : Option ℕ → JsCall
  send : Option Bytes → Bool → JsCall
  json : Bool → Option Bytes → Bool → Bool → JsCall
  set_header : Option Bytes → Option Bytes → Bool → JsCall

unfoldable pub js_call : JsCall → Method
unfolding js_res_status js_res_send js_res_json js_res_set
js_call stray r = (true, r)
js_call (status code) r = js_res_status no_effect code r
js_call (send text malloc) r = js_res_send no_effect text malloc r
js_call (json stringify text malloc strdup) r = js_res_json no_effect stringify text malloc strdup r
js_call (set_header name value malloc) r = js_res_set no_effect name value malloc r

-- Calls one after another; JavaScript may catch what a method throws.
unfoldable pub js_calls : List JsCall → Response → Response
unfolding js_call
js_calls [] r = r
js_calls (c ∷ cs) r = js_calls cs (js_call c r).1

-- printf's "%d" of 32 bits.
unfoldable pub print_int : ℕ → Bytes
unfolding print_digits
print_int n =
    if ltb n (2 ^ 31) then print_digits 10 n else codes "-" ++ print_digits 10 (2 ^ 32 - n)

abbrev pub crlf : Bytes
crlf = 13 ∷ 10 ∷ []

-- The header lines; `none` is printf's "%s" of NULL, which has no defined result.
unfoldable pub send_headers : List (Option Bytes) → Option Bytes
send_headers [] = some []
send_headers (none ∷ hs) = none
send_headers (some h ∷ hs) = elim (send_headers hs) [
  | none ↦ none
  | some rest ↦ some (h ++ (crlf ++ rest))
]

-- "Send body"
unfoldable pub send_body : Option Bytes → Bytes
unfolding print_size
send_body none = codes "Content-Length: 0" ++ (crlf ++ crlf)
send_body (some body) =
    if ltb 0 (length body)
    then codes "Content-Length: " ++ (print_size (length body) ++ (crlf ++ (crlf ++ body)))
    else codes "Content-Length: 0" ++ (crlf ++ crlf)

-- The bytes that `hbf_send_response` writes to the connection.
unfoldable pub hbf_send_response : Response → Option Bytes
unfolding print_int send_headers send_body
hbf_send_response r = elim (send_headers r.headers) [
  | none ↦ none
  | some lines ↦ some (
      codes "HTTP/1.1 "
      ++ (print_int r.status_code ++ (codes " OK" ++ (crlf ++ (lines ++ send_body r.body)))))
]

unfoldable pub hbf_response_free : Response → Response
hbf_response_free r = record r { headers = []; body = none; sent = false }
