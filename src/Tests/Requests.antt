-- ===== src/Tests/Requests.antt =====
-- The request handler and the response on concrete runs.
use hbf.Base.{
  read10, c_str, ◌≡◌, refl, true, false, none, some, List, [], ◌∷◌, ◌++◌, Bytes, codes, length,
  take, ◌&&◌, if◌then◌else◌, arith,
}
use hbf.Overlay.Read.{Global}
use hbf.Overlay.ReadBack.{read_calls}
use hbf.Handler.{
  js_exception, js_function, js_other, js_undefined, HandlerCalls, hbf_qjs_request_handler,
}
use hbf.Handler.Audit.{audit, replies, idle}
use hbf.Handler.Release.{keeps_buffer, server_js, hbf_qjs_request_handler_lem}
use hbf.Response.{
  Response, fresh_response, hbf_qjs_create_response, JsCall, status, send, json, set_header,
  js_calls, print_int, crlf, send_headers, hbf_send_response,
}
use hbf.Response.Calls.{first_offered, all_asked, js_calls_lem}
use hbf.Response.Reply.{body_of, hbf_send_response-length}
use hbf.Tests.Store.{one_file}

-- A request whose JavaScript throws an error without a stack.
abbrev pub throws : HandlerCalls
throws = record {
  request_info = true;
  ctx = true;
  js_context = true;
  read = read_calls;
  eval_module = true;
  create_request = js_other;
  create_response = js_other;
  global_object = js_other;
  app_property = js_other;
  handle_property = js_function;
  call_result = js_exception;
  get_exception = js_other;
  stack_property = js_undefined;
  message_property = js_other;
  err_cstring = true;
  stack_cstring = true;
  message_cstring = false;
  status_code = 200;
}

abbrev pub files : Global
files = record { g_overlay_db = some one_file }

hbf_qjs_request_handler_lem_example :
    (audit idle (hbf_qjs_request_handler throws files).events
      ≡ some (true && true && true && keeps_buffer (server_js throws files)))
    × (replies (hbf_qjs_request_handler throws files).events
        ≡ (if true then (hbf_qjs_request_handler throws files).status ∷ [] else []))
hbf_qjs_request_handler_lem_example = hbf_qjs_request_handler_lem throws files

-- A page that is sent twice, with a header between.
abbrev page_calls : List JsCall
page_calls =
    status (some 404)
    ∷ send none true
    ∷ send (some (codes "gone")) true
    ∷ set_header (some (codes "A")) (some (codes "b")) true
    ∷ json true (some (codes "{}")) true true
    ∷ []

-- The memory of an earlier response.
abbrev stale_memory : Response
stale_memory = record {
  status_code = 500;
  headers = some (codes "X: y") ∷ [];
  body = some (codes "old");
  sent = true;
}

js_calls_lem_example :
    ((js_calls page_calls (hbf_qjs_create_response true true stale_memory).1).body
      ≡ first_offered page_calls)
    × ((js_calls page_calls (hbf_qjs_create_response true true stale_memory).1).sent
        ≡ (elim (first_offered page_calls) [ some body ↦ true | none ↦ false ]))
    × ((js_calls page_calls (hbf_qjs_create_response true true stale_memory).1).headers
        ≡ take 32 (all_asked false page_calls))
js_calls_lem_example = js_calls_lem stale_memory page_calls

abbrev gone : Response
gone = record {
  status_code = 404;
  headers = some (codes "A: b") ∷ [];
  body = some (codes "gone");
  sent = true;
}

page_calls-gone : js_calls page_calls fresh_response ≡ gone
unfolding js_calls c_str
page_calls-gone = refl

one_line : send_headers gone.headers ≡ some (codes "A: b" ++ (crlf ++ []))
unfolding send_headers
one_line = refl

hbf_send_response-length_example :
    (digits : Bytes) × (hbf_send_response gone
      ≡ some (
          codes "HTTP/1.1 "
          ++ (print_int gone.status_code
              ++ (codes " OK"
                  ++ (crlf
                      ++ ((codes "A: b" ++ (crlf ++ []))
                          ++ (codes "Content-Length: "
                              ++ (digits ++ (crlf ++ (crlf ++ body_of gone.body))))))))))
    × (read10 0 digits ≡ length (body_of gone.body))
hbf_send_response-length_example =
    hbf_send_response-length gone (codes "A: b" ++ (crlf ++ [])) one_line (omega arith)
