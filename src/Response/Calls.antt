-- ===== src/Response/Calls.antt =====
-- What a sequence of method calls leaves in the response: the first body, and the first headers.
use hbf.Base.{
  ◌&&◌, ◌||◌, ℕ, zero, suc, ◌≤◌, ◌≡◌, refl, ◌∙◌, ap, sym, Bool, true, false, not, Option, none,
  some, List, [], ◌∷◌, ◌++◌, Bytes, length, take, take_all, take-append_le, length-append,
  append_assoc, append-nil, ltb, leb, Bool-cases, inl, inr, if◌then◌else◌, arith,
}
use hbf.Response.{
  no_effect, js_res_json, js_res_set, Response, fresh_response, hbf_qjs_create_response, JsCall,
  stray, status, send, json, set_header, js_call, js_calls, header_line, content_type,
  add_content_type,
}

-- The body that a call offers.
unfoldable pub offered : JsCall → Option Bytes
offered stray = none
offered (status code) = none
offered (send text malloc) = if malloc then text else none
offered (json stringify text malloc strdup) = if stringify && malloc then text else none
offered (set_header name value malloc) = none

unfoldable pub first_offered : List JsCall → Option Bytes
unfolding offered
first_offered [] = none
first_offered (c ∷ cs) = elim (offered c) [ some body ↦ some body | none ↦ first_offered cs ]

-- The headers that a call asks for, given whether a body has been sent.
unfoldable pub asked : Bool → JsCall → List (Option Bytes)
unfolding header_line content_type
asked sent stray = []
asked sent (status code) = []
asked sent (send text malloc) = []
asked sent (json stringify text malloc strdup) =
    if not sent && stringify && malloc
    then (elim text [ none ↦ [] | some body ↦ content_type strdup ∷ [] ])
    else []
asked sent (set_header none value malloc) = []
asked sent (set_header (some n) none malloc) = []
asked sent (set_header (some n) (some v) malloc) =
    if malloc then some (header_line n v) ∷ [] else []

unfoldable pub is_offer : JsCall → Bool
unfolding offered
is_offer c = elim (offered c) [ some body ↦ true | none ↦ false ]

unfoldable pub all_asked : Bool → List JsCall → List (Option Bytes)
unfolding asked is_offer
all_asked sent [] = []
all_asked sent (c ∷ cs) = asked sent c ++ all_asked (sent || is_offer c) cs

-- One call.
js_call-sent : (c : JsCall) (r : Response) → (js_call c r).1.sent ≡ (r.sent || is_offer c)
unfolding js_call is_offer
js_call-sent stray r = ground arith
js_call-sent (status none) r = ground arith
js_call-sent (status (some n)) r = ground arith
js_call-sent (send text malloc) r = ground arith
js_call-sent (json stringify text malloc strdup) r = ground arith
js_call-sent (set_header name value malloc) r = ground arith

js_call-body :
    (c : JsCall) (r : Response)
    → (js_call c r).1.body
      ≡ (if r.sent then r.body else (elim (offered c) [ some body ↦ some body | none ↦ r.body ]))
unfolding js_call offered
js_call-body stray r = ground arith
js_call-body (status none) r = ground arith
js_call-body (status (some n)) r = ground arith
js_call-body (send text malloc) r = ground arith
js_call-body (json stringify text malloc strdup) r = ground arith
js_call-body (set_header name value malloc) r = ground arith

add_one :
    (hs : List (Option Bytes)) (h : Option Bytes)
    → length hs ≤ 32
    → (if ltb (length hs) 32 then hs ++ h ∷ [] else hs) ≡ take 32 (hs ++ h ∷ [])
add_one hs h room = elim (Bool-cases (ltb (length hs) 32)) [
  | inl e ↦ rw e (sym (take_all 32 (hs ++ h ∷ []) (rw length-append (ground arith))))
  | inr e ↦ rw e (sym (take-append_le 32 hs (h ∷ []) (ground arith) ∙ take_all 32 hs room))
]

none_added : (hs : List (Option Bytes)) → length hs ≤ 32 → hs ≡ take 32 (hs ++ [])
none_added hs room = rw append-nil (sym (take_all 32 hs room))

add_content_type-headers :
    (strdup : Bool) (r : Response)
    → length r.headers ≤ 32
    → (add_content_type strdup r).headers ≡ take 32 (r.headers ++ content_type strdup ∷ [])
unfolding add_content_type
add_content_type-headers strdup r room = elim (Bool-cases (ltb (length r.headers) 32)) [
  | inl e ↦ rw e (rw e at (add_one r.headers (content_type strdup) room))
  | inr e ↦ rw e (rw e at (add_one r.headers (content_type strdup) room))
]

json-headers :
    (stringify malloc strdup : Bool) (text : Option Bytes) (r : Response)
    → length r.headers ≤ 32
    → (js_res_json no_effect stringify text malloc strdup r).1.headers
      ≡ take 32 (r.headers ++ asked r.sent (json stringify text malloc strdup))
unfolding js_res_json asked
json-headers false malloc strdup text r room = elim (Bool-cases r.sent) [
  | inl e ↦ rw e (none_added r.headers room)
  | inr e ↦ rw e (none_added r.headers room)
]
json-headers true malloc strdup none r room = elim (Bool-cases r.sent) [
  | inl e ↦ rw e (none_added r.headers room)
  | inr e ↦ elim (Bool-cases malloc) [
    | inl m ↦ rw (e, m) (none_added r.headers room)
    | inr m ↦ rw (e, m) (none_added r.headers room)
  ]
]
json-headers true false strdup (some body) r room = elim (Bool-cases r.sent) [
  | inl e ↦ rw e (none_added r.headers room)
  | inr e ↦ rw e (none_added r.headers room)
]
json-headers true true strdup (some body) r room = elim (Bool-cases r.sent) [
  | inl e ↦ rw e (none_added r.headers room)
  | inr e ↦ rw e (add_content_type-headers strdup (record r { body = some body; sent = true }) room)
]

set_header-headers :
    (malloc : Bool) (name value : Option Bytes) (r : Response)
    → length r.headers ≤ 32
    → (js_res_set no_effect name value malloc r).1.headers
      ≡ take 32 (r.headers ++ asked r.sent (set_header name value malloc))
unfolding js_res_set asked
set_header-headers malloc none value r room = elim (Bool-cases (leb 32 (length r.headers))) [
  | inl e ↦ rw e (none_added r.headers room)
  | inr e ↦ rw e (none_added r.headers room)
]
set_header-headers malloc (some n) none r room = elim (Bool-cases (leb 32 (length r.headers))) [
  | inl e ↦ rw e (none_added r.headers room)
  | inr e ↦ rw e (none_added r.headers room)
]
set_header-headers false (some n) (some v) r room = elim (Bool-cases (leb 32 (length r.headers))) [
  | inl e ↦ rw e (none_added r.headers room)
  | inr e ↦ rw e (none_added r.headers room)
]
set_header-headers true (some n) (some v) r room =
    let added = add_one r.headers (some (header_line n v)) room in
    elim (Bool-cases (leb 32 (length r.headers))) [
      | inl e ↦ rw e (full added e)
      | inr e ↦ rw e (below added e)
    ]
  where
    full :
        (if ltb (length r.headers) 32 then r.headers ++ some (header_line n v) ∷ [] else r.headers)
          ≡ take 32 (r.headers ++ some (header_line n v) ∷ [])
        → leb 32 (length r.headers) ≡ true
        → r.headers ≡ take 32 (r.headers ++ some (header_line n v) ∷ [])
    full added e =
        let at_limit : ltb (length r.headers) 32 ≡ false = ground arith in rw at_limit at added

    below :
        (if ltb (length r.headers) 32 then r.headers ++ some (header_line n v) ∷ [] else r.headers)
          ≡ take 32 (r.headers ++ some (header_line n v) ∷ [])
        → leb 32 (length r.headers) ≡ false
        → r.headers ++ some (header_line n v) ∷ []
          ≡ take 32 (r.headers ++ some (header_line n v) ∷ [])
    below added e =
        let at_limit : ltb (length r.headers) 32 ≡ true = ground arith in rw at_limit at added

js_call-headers :
    (c : JsCall) (r : Response)
    → length r.headers ≤ 32
    → (js_call c r).1.headers ≡ take 32 (r.headers ++ asked r.sent c)
js_call-headers stray r room = unfold js_call asked in none_added r.headers room
js_call-headers (status none) r room = unfold js_call asked in none_added r.headers room
js_call-headers (status (some n)) r room = unfold js_call asked in none_added r.headers room
js_call-headers (send text malloc) r room =
    unfold js_call asked in ground (arith, none_added r.headers room)
js_call-headers (json stringify text malloc strdup) r room =
    unfold js_call in json-headers stringify malloc strdup text r room
js_call-headers (set_header name value malloc) r room =
    unfold js_call in set_header-headers malloc name value r room

take-take-append :
    (n : ℕ) (xs ys : List (Option Bytes)) → take n (take n xs ++ ys) ≡ take n (xs ++ ys)
take-take-append zero xs ys = refl
take-take-append (suc n) [] ys = refl
take-take-append (suc n) (x ∷ xs) ys = ap (◌∷◌ x) (take-take-append n xs ys)

length-take_le : (n : ℕ) (xs : List (Option Bytes)) → length (take n xs) ≤ n
length-take_le zero xs = omega arith
length-take_le (suc n) [] = omega arith
length-take_le (suc n) (x ∷ xs) = omega (arith, length-take_le n xs)

js_calls-headers :
    (cs : List JsCall) (r : Response)
    → length r.headers ≤ 32
    → (js_calls cs r).headers ≡ take 32 (r.headers ++ all_asked r.sent cs)
unfolding js_calls all_asked
js_calls-headers [] r room = none_added r.headers room
js_calls-headers (c ∷ cs) r room =
    let r' = (js_call c r).1 in
    let headers = js_call-headers c r room in
    js_calls-headers cs r' (rw headers (length-take_le 32 (r.headers ++ asked r.sent c)))
    ∙ rw (headers, js_call-sent c r)
        (take-take-append 32 (r.headers ++ asked r.sent c) (all_asked (r.sent || is_offer c) cs)
          ∙ ap (take 32)
              (append_assoc r.headers (asked r.sent c) (all_asked (r.sent || is_offer c) cs)))

js_calls-body :
    (cs : List JsCall) (r : Response)
    → (js_calls cs r).body ≡ (
        if r.sent
        then r.body
        else (elim (first_offered cs) [ some body ↦ some body | none ↦ r.body ]))
unfolding js_calls first_offered is_offer
js_calls-body [] r = ground arith
js_calls-body (c ∷ cs) r =
    js_calls-body cs (js_call c r).1 ∙ rw (js_call-sent c r, js_call-body c r) (ground arith)

js_calls-sent :
    (cs : List JsCall) (r : Response)
    → (js_calls cs r).sent
      ≡ (r.sent || (elim (first_offered cs) [ some body ↦ true | none ↦ false ]))
unfolding js_calls first_offered is_offer
js_calls-sent [] r = ground arith
js_calls-sent (c ∷ cs) r = js_calls-sent cs (js_call c r).1 ∙ rw (js_call-sent c r) (ground arith)

-- What a request's JavaScript may do to its response, whatever was in the memory for it, where the
-- conversion of an argument calls no method of the response: after any sequence of such calls of
-- methods on the created object, failing ones included, the body is the first one
-- that a send or a json could deliver, `sent` says whether there is one, and the headers are the
-- first 32 of those asked for, in order, of which a json that comes after a body asks for none.
pub js_calls_lem :
    (res_data : Response) (cs : List JsCall)
    → ((js_calls cs (hbf_qjs_create_response true true res_data).1).body ≡ first_offered cs)
      × ((js_calls cs (hbf_qjs_create_response true true res_data).1).sent
          ≡ (elim (first_offered cs) [ some body ↦ true | none ↦ false ]))
      × ((js_calls cs (hbf_qjs_create_response true true res_data).1).headers
          ≡ take 32 (all_asked false cs))
unfolding hbf_qjs_create_response
js_calls_lem res_data cs = (
  js_calls-body cs fresh_response ∙ ground arith,
  js_calls-sent cs fresh_response,
  js_calls-headers cs fresh_response (omega arith),
)
