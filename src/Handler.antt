-- ===== src/Handler.antt =====
-- `hbf_qjs_request_handler` of hbf/http/handler.c: the trace of what it acquires, releases and
-- sends, on every outcome of the calls that it makes.
pub mod Audit
pub mod Release
pub mod Answers
pub mod Workers
use hbf.Base.{
  ℕ, Bool, true, false, not, none, some, List, [], ◌∷◌, ◌++◌, codes, ◌==◌, ◌||◌, ◌&&◌,
  if◌then◌else◌,
}
use hbf.Overlay.Read.{Read, found, missing, ReadCalls, Global, overlay_fs_read_file}

-- What the tests on a `JSValue` distinguish.
pub data JsValue : Type 0 where
  js_exception : JsValue
  js_null : JsValue
  js_undefined : JsValue
  js_function : JsValue
  js_other : JsValue

-- The local variables that hold a `JSValue`, and those that hold a string of QuickJS.
pub data Local : Type 0 where
  req : Local
  res : Local
  global : Local
  app : Local
  handle_func : Local
  result : Local
  exception : Local
  stack : Local
  message : Local
  err_str : Local
  stack_str : Local
  message_str : Local

-- What the handler does to its resources and to the connection. `get` is a call that gives the
-- variable a value; `free` is JS_FreeValue or JS_FreeCString.
pub data Event : Type 0 where
  lock : Event
  unlock : Event
  create_ctx : Event
  destroy_ctx : Event
  malloc_js : Event
  free_js : Event
  init_response : Event
  free_response : Event
  get : Local → JsValue → Event
  free : Local → Event
  begin_exec : Event
  call : Event
  run_jobs : Event
  send_error : ℕ → Event
  send_response : ℕ → Event

pub record Run : Type 0 where
  pub events : List Event
  pub status : ℕ

-- The outcomes. `status_code` is the field of the response once JavaScript has run; the queue of
-- pending jobs is taken to end.
pub record HandlerCalls : Type 0 where
  pub request_info : Bool
  pub ctx : Bool
  pub js_context : Bool
  pub read : ReadCalls
  pub eval_module : Bool
  pub create_request : JsValue
  pub create_response : JsValue
  pub global_object : JsValue
  pub app_property : JsValue
  pub handle_property : JsValue
  pub call_result : JsValue
  pub get_exception : JsValue
  pub stack_property : JsValue
  pub message_property : JsValue
  pub err_cstring : Bool
  pub stack_cstring : Bool
  pub message_cstring : Bool
  pub status_code : ℕ

unfoldable pub is_exception : JsValue → Bool
is_exception js_exception = true
is_exception js_null = false
is_exception js_undefined = false
is_exception js_function = false
is_exception js_other = false

unfoldable pub is_null : JsValue → Bool
is_null js_exception = false
is_null js_null = true
is_null js_undefined = false
is_null js_function = false
is_null js_other = false

unfoldable pub is_undefined : JsValue → Bool
is_undefined js_exception = false
is_undefined js_null = false
is_undefined js_undefined = true
is_undefined js_function = false
is_undefined js_other = false

unfoldable pub is_function : JsValue → Bool
is_function js_exception = false
is_function js_null = false
is_function js_undefined = false
is_function js_function = true
is_function js_other = false

unfoldable pub emit : List Event → Run → Run
emit before r = record { events = before ++ r.events; status = r.status }

-- Destroy the context, unlock, and answer with an error.
unfoldable pub fail : List Event → ℕ → Run
fail before status = record {
  events = before ++ destroy_ctx ∷ unlock ∷ send_error status ∷ [];
  status = status;
}

-- JS_ToCString and JS_FreeCString of a string that may be NULL.
unfoldable pub string : Bool → Local → List Event
string given s = if given then get s js_other ∷ [] else []

unfoldable pub free_string : Bool → Local → List Event
free_string given s = if given then free s ∷ [] else []

-- "Check for JavaScript error", with what is known of the three strings.
unfoldable pub report_strings : HandlerCalls → Bool → Bool → Bool → Run
unfolding string free_string fail
report_strings calls with_err with_message with_stack =
    fail
      (get exception calls.get_exception
        ∷ (string with_err err_str
            ++ (get stack calls.stack_property
                ∷ get message calls.message_property
                ∷ (string with_message message_str
                    ++ (string with_stack stack_str
                        ++ (free message
                            ∷ free stack
                            ∷ (free_string with_message message_str
                                ++ (free_string with_stack stack_str
                                    ++ (free_string with_err err_str
                                        ++ (free exception
                                            ∷ free result
                                            ∷ free handle_func
                                            ∷ free app
                                            ∷ free res
                                            ∷ free req
                                            ∷ free global
                                            ∷ free_response
                                            ∷ []))))))))))
      500

unfoldable pub report_exception : HandlerCalls → Run
unfolding is_undefined report_strings
report_exception calls =
    report_strings calls calls.err_cstring
      (not (is_undefined calls.message_property) && calls.message_cstring)
      (not (is_undefined calls.stack_property) && calls.stack_cstring)

-- "Call app.handle(req, res)", then the response.
unfoldable pub call_handle : HandlerCalls → JsValue → Run
unfolding is_exception report_exception emit
call_handle calls value = emit (begin_exec ∷ call ∷ get result value ∷ run_jobs ∷ []) (
    if is_exception value then report_exception calls else record {
      events =
          send_response calls.status_code
          ∷ free result
          ∷ free handle_func
          ∷ free app
          ∷ free res
          ∷ free req
          ∷ free global
          ∷ free_response
          ∷ destroy_ctx
          ∷ unlock
          ∷ [];
      status = calls.status_code;
    })

-- "Getting 'handle' property from app"
unfoldable pub get_handle : HandlerCalls → JsValue → Run
unfolding is_undefined is_function call_handle fail emit
get_handle calls value =
    let cleanup =
      free handle_func ∷ free app ∷ free res ∷ free req ∷ free global ∷ free_response ∷ [] in
    emit (get handle_func value ∷ []) (
      if is_undefined value
      then fail cleanup 500
      else if not (is_function value)
      then fail cleanup 500
      else call_handle calls calls.call_result)

-- "Getting 'app' from global object"
unfoldable pub get_app : HandlerCalls → JsValue → Run
unfolding is_undefined is_null get_handle fail emit
get_app calls value =
    let cleanup = free app ∷ free res ∷ free req ∷ free global ∷ free_response ∷ [] in
    emit (get app value ∷ []) (
      if is_undefined value
      then fail cleanup 503
      else if is_null value
      then fail cleanup 503
      else get_handle calls calls.handle_property)

-- "Get global.app.handle"
unfoldable pub get_global : HandlerCalls → JsValue → Run
unfolding is_exception is_null is_undefined get_app fail emit
get_global calls value = emit (get global value ∷ []) (
    if is_exception value || is_null value || is_undefined value
    then fail (free res ∷ free req ∷ free_response ∷ []) 500
    else get_app calls calls.app_property)

-- The response object; its creation initialises the response first.
unfoldable pub make_response : HandlerCalls → JsValue → Run
unfolding is_exception is_null get_global fail emit
make_response calls value = emit (init_response ∷ get res value ∷ []) (
    if is_exception value || is_null value
    then fail (free req ∷ []) 500
    else get_global calls calls.global_object)

-- "Create request and response objects"
unfoldable pub make_request : HandlerCalls → JsValue → Run
unfolding is_exception is_null make_response fail emit
make_request calls value = emit (get req value ∷ []) (
    if is_exception value || is_null value
    then fail [] 500
    else make_response calls calls.create_response)

-- "Load hbf/server.js from database": a file without bytes counts as not found, and the buffer
-- that the read gave is then not freed.
unfoldable pub load_server : HandlerCalls → Read → Run
unfolding make_request fail emit
load_server calls missing = fail [] 503
load_server calls (found none size) = fail [] 503
load_server calls (found (some buffer) size) = emit (malloc_js ∷ []) (
    if size == 0
    then fail [] 503
    else emit (free_js ∷ [])
        (if not calls.eval_module then fail [] 500 else make_request calls calls.create_request))

unfoldable pub hbf_qjs_request_handler : HandlerCalls → Global → Run
unfolding overlay_fs_read_file load_server emit
hbf_qjs_request_handler calls g =
    if not calls.request_info
    then record { events = []; status = 500 }
    else if not calls.ctx
    then record { events = lock ∷ unlock ∷ send_error 500 ∷ []; status = 500 }
    else emit (lock ∷ create_ctx ∷ []) (
        if not calls.js_context
        then fail [] 500
        else load_server calls
            (overlay_fs_read_file calls.read g (some (codes "hbf/server.js")) 1 true))
