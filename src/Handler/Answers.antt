-- ===== src/Handler/Answers.antt =====
-- What a request gets where nothing fails.
use hbf.Base.{arith, codes, ℕ, ◌≡◌, refl, ◌∙◌, ap, true, false, some, ◌∷◌, Bytes, length, ◌==◌}
use hbf.Overlay.Read.{ReadCalls, Global, found, overlay_fs_read_file}
use hbf.Handler.{
  is_undefined, is_null, is_exception, is_function, js_function, js_other, js_undefined,
  HandlerCalls, call_handle, get_handle, get_app, get_global, make_response, make_request,
  load_server, hbf_qjs_request_handler, emit,
}

-- The calls of a request that all succeed, where server.js has defined app.handle, which does not
-- throw and leaves this status.
abbrev pub answering : ReadCalls → ℕ → HandlerCalls
answering read status = record {
  request_info = true;
  ctx = true;
  js_context = true;
  read = read;
  eval_module = true;
  create_request = js_other;
  create_response = js_other;
  global_object = js_other;
  app_property = js_other;
  handle_property = js_function;
  call_result = js_other;
  get_exception = js_other;
  stack_property = js_undefined;
  message_property = js_undefined;
  err_cstring = true;
  stack_cstring = true;
  message_cstring = true;
  status_code = status;
}

load_server-answering :
    (read : ReadCalls) (status b : ℕ) (bs : Bytes)
    → (load_server (answering read status) (found (some (b ∷ bs)) (length (b ∷ bs)))).status
      ≡ status
unfolding load_server emit make_request make_response get_global get_app get_handle call_handle
    is_undefined is_null is_exception is_function
load_server-answering read status b bs =
    let some_bytes : (length (b ∷ bs) == 0) ≡ false = ground arith in rw some_bytes refl

-- A server.js with bytes is run, and the request is answered with the status that it leaves.
pub hbf_qjs_request_handler-answering :
    (read : ReadCalls) (g : Global) (status b : ℕ) (bs : Bytes)
    → overlay_fs_read_file read g (some (codes "hbf/server.js")) 1 true
      ≡ found (some (b ∷ bs)) (length (b ∷ bs))
    → (hbf_qjs_request_handler (answering read status) g).status ≡ status
unfolding hbf_qjs_request_handler emit
hbf_qjs_request_handler-answering read g status b bs reads =
    ap (λ r. (load_server (answering read status) r).status) reads
    ∙ load_server-answering read status b bs
