-- ===== src/Handler/Release.antt =====
-- That the request handler gives back all that it holds, on every path.
use hbf.Base.{
  codes, Bool-cases, inl, inr, ◌≡◌, refl, Bool, true, false, not, none, some, List, [], ◌∷◌, ◌==◌,
  ◌&&◌, if◌then◌else◌,
}
use hbf.Overlay.Read.{Read, found, missing, Global, overlay_fs_read_file}
use hbf.Handler.{
  is_undefined, JsValue, js_exception, js_null, js_undefined, js_function, js_other, Local, req,
  res, global, app, handle_func, result, free_js, Run, HandlerCalls, report_strings, call_handle,
  get_handle, get_app, get_global, make_response, make_request, load_server,
  hbf_qjs_request_handler, fail, emit,
}
use hbf.Handler.Audit.{Slot, Held, audit, replies, idle}

-- Whether the read gave a buffer for a file without bytes.
unfoldable pub keeps_buffer : Read → Bool
keeps_buffer missing = false
keeps_buffer (found none size) = false
keeps_buffer (found (some buffer) size) = size == 0

-- A run from what is held: it is allowed, ends with the buffer held or not, and sends its status.
abbrev IsSound : Held → Bool → Run → Type 0
IsSound h leak r = (audit h r.events ≡ some leak) × (replies r.events ≡ r.status ∷ [])

-- What is held with a live context and these variables.
abbrev live : Bool → Bool → List Slot → Held
live js_data ready slots = record {
  mutex = true;
  ctx = true;
  js_data = js_data;
  ready = ready;
  filled = false;
  holding = slots;
}

abbrev slot : Local → JsValue → Slot
slot l v = record { var = l; value = v }

module _ (calls : HandlerCalls) where
  report_strings-IsSound :
      (v_req v_res v_global v_app v_handle v : JsValue) (a b c : Bool)
      → IsSound
          (record (live false true (
            slot result v
            ∷ slot handle_func v_handle
            ∷ slot app v_app
            ∷ slot global v_global
            ∷ slot res v_res
            ∷ slot req v_req
            ∷ [])) { filled = true })
          false
          (report_strings calls a b c)
  unfolding report_strings audit replies
  report_strings-IsSound v_req v_res v_global v_app v_handle v false false false = (refl, refl)
  report_strings-IsSound v_req v_res v_global v_app v_handle v false false true = (refl, refl)
  report_strings-IsSound v_req v_res v_global v_app v_handle v false true false = (refl, refl)
  report_strings-IsSound v_req v_res v_global v_app v_handle v false true true = (refl, refl)
  report_strings-IsSound v_req v_res v_global v_app v_handle v true false false = (refl, refl)
  report_strings-IsSound v_req v_res v_global v_app v_handle v true false true = (refl, refl)
  report_strings-IsSound v_req v_res v_global v_app v_handle v true true false = (refl, refl)
  report_strings-IsSound v_req v_res v_global v_app v_handle v true true true = (refl, refl)

  call_handle-IsSound :
      (v_req v_res v_global v_app v : JsValue)
      → IsSound
          (live false true (
            slot handle_func js_function
            ∷ slot app v_app
            ∷ slot global v_global
            ∷ slot res v_res
            ∷ slot req v_req
            ∷ []))
          false
          (call_handle calls v)
  unfolding call_handle audit replies emit
  call_handle-IsSound v_req v_res v_global v_app js_exception =
      report_strings-IsSound v_req v_res v_global v_app js_function js_exception calls.err_cstring
        (not (is_undefined calls.message_property) && calls.message_cstring)
        (not (is_undefined calls.stack_property) && calls.stack_cstring)
  call_handle-IsSound v_req v_res v_global v_app js_null = (refl, refl)
  call_handle-IsSound v_req v_res v_global v_app js_undefined = (refl, refl)
  call_handle-IsSound v_req v_res v_global v_app js_function = (refl, refl)
  call_handle-IsSound v_req v_res v_global v_app js_other = (refl, refl)

  get_handle-IsSound :
      (v_req v_res v_global v_app v : JsValue)
      → IsSound
          (live false true
            (slot app v_app ∷ slot global v_global ∷ slot res v_res ∷ slot req v_req ∷ []))
          false
          (get_handle calls v)
  unfolding get_handle audit replies emit
  get_handle-IsSound v_req v_res v_global v_app js_exception = (refl, refl)
  get_handle-IsSound v_req v_res v_global v_app js_null = (refl, refl)
  get_handle-IsSound v_req v_res v_global v_app js_undefined = (refl, refl)
  get_handle-IsSound v_req v_res v_global v_app js_function =
      call_handle-IsSound v_req v_res v_global v_app calls.call_result
  get_handle-IsSound v_req v_res v_global v_app js_other = (refl, refl)

  get_app-IsSound :
      (v_req v_res v_global v : JsValue)
      → IsSound
          (live false true (slot global v_global ∷ slot res v_res ∷ slot req v_req ∷ []))
          false
          (get_app calls v)
  unfolding get_app audit replies emit
  get_app-IsSound v_req v_res v_global js_exception =
      get_handle-IsSound v_req v_res v_global js_exception calls.handle_property
  get_app-IsSound v_req v_res v_global js_null = (refl, refl)
  get_app-IsSound v_req v_res v_global js_undefined = (refl, refl)
  get_app-IsSound v_req v_res v_global js_function =
      get_handle-IsSound v_req v_res v_global js_function calls.handle_property
  get_app-IsSound v_req v_res v_global js_other =
      get_handle-IsSound v_req v_res v_global js_other calls.handle_property

  get_global-IsSound :
      (v_req v_res v : JsValue)
      → IsSound (live false true (slot res v_res ∷ slot req v_req ∷ [])) false (get_global calls v)
  unfolding get_global audit replies emit
  get_global-IsSound v_req v_res js_exception = (refl, refl)
  get_global-IsSound v_req v_res js_null = (refl, refl)
  get_global-IsSound v_req v_res js_undefined = (refl, refl)
  get_global-IsSound v_req v_res js_function =
      get_app-IsSound v_req v_res js_function calls.app_property
  get_global-IsSound v_req v_res js_other = get_app-IsSound v_req v_res js_other calls.app_property

  make_response-IsSound :
      (v_req v : JsValue)
      → IsSound (live false false (slot req v_req ∷ [])) false (make_response calls v)
  unfolding make_response audit replies emit
  make_response-IsSound v_req js_exception = (refl, refl)
  make_response-IsSound v_req js_null = (refl, refl)
  make_response-IsSound v_req js_undefined =
      get_global-IsSound v_req js_undefined calls.global_object
  make_response-IsSound v_req js_function = get_global-IsSound v_req js_function calls.global_object
  make_response-IsSound v_req js_other = get_global-IsSound v_req js_other calls.global_object

  make_request-IsSound : (v : JsValue) → IsSound (live false false []) false (make_request calls v)
  unfolding make_request audit replies emit
  make_request-IsSound js_exception = (refl, refl)
  make_request-IsSound js_null = (refl, refl)
  make_request-IsSound js_undefined = make_response-IsSound js_undefined calls.create_response
  make_request-IsSound js_function = make_response-IsSound js_function calls.create_response
  make_request-IsSound js_other = make_response-IsSound js_other calls.create_response

  loaded-IsSound :
      (evaluates : Bool)
      → IsSound (live true false []) false (
          emit
            (free_js ∷ [])
            (if not evaluates then fail [] 500 else make_request calls calls.create_request))
  unfolding audit replies emit fail
  loaded-IsSound true = make_request-IsSound calls.create_request
  loaded-IsSound false = (refl, refl)

  load_server-IsSound :
      (read : Read) → IsSound (live false false []) (keeps_buffer read) (load_server calls read)
  unfolding load_server audit replies emit keeps_buffer
  load_server-IsSound missing = (refl, refl)
  load_server-IsSound (found none size) = (refl, refl)
  load_server-IsSound (found (some buffer) size) = elim (Bool-cases (size == 0)) [
    | inl e ↦ rw e (refl, refl)
    | inr e ↦ rw e (loaded-IsSound calls.eval_module)
  ]

-- What the handler reads as hbf/server.js.
abbrev pub server_js : HandlerCalls → Global → Read
server_js calls g = overlay_fs_read_file calls.read g (some (codes "hbf/server.js")) 1 true

-- On every outcome of its calls the request handler uses QuickJS only under the mutex and on a
-- live context, frees no value twice, and gives back the mutex, the context, every JavaScript value
-- and the response; the buffer with server.js is given back too, except where it is for a file
-- without bytes. It sends exactly one reply, of the status that it returns, or none where there is
-- no request.
pub hbf_qjs_request_handler_lem :
    (calls : HandlerCalls) (g : Global)
    → (audit idle (hbf_qjs_request_handler calls g).events
        ≡ some (
            calls.request_info
            && calls.ctx
            && calls.js_context
            && keeps_buffer (server_js calls g)))
      × (replies (hbf_qjs_request_handler calls g).events
          ≡ (if calls.request_info then (hbf_qjs_request_handler calls g).status ∷ [] else []))
unfolding hbf_qjs_request_handler audit replies emit fail
hbf_qjs_request_handler_lem calls g = elim (Bool-cases calls.request_info) [
  | inr e ↦ rw e (refl, refl)
  | inl e ↦ elim (Bool-cases calls.ctx) [
    | inr c ↦ rw (e, c) (refl, refl)
    | inl c ↦ elim (Bool-cases calls.js_context) [
      | inr j ↦ rw (e, c, j) (refl, refl)
      | inl j ↦ rw (e, c, j) (load_server-IsSound calls (server_js calls g))
    ]
  ]
]
