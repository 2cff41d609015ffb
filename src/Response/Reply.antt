-- ===== src/Response/Reply.antt =====
-- The bytes of the reply.
use hbf.Base.{
  read10, read10-print_digits, print_size, ◌^◌, ◌<◌, ◌≡◌, refl, ◌∙◌, ap, true, Option, none, some,
  [], ◌∷◌, ◌++◌, Bytes, codes, length, ltb, arith,
}
use hbf.Response.{Response, print_int, crlf, send_headers, send_body, hbf_send_response}

abbrev pub body_of : Option Bytes → Bytes
body_of none = []
body_of (some body) = body

send_body_lem :
    (b : Option Bytes)
    → send_body b
      ≡ codes "Content-Length: "
        ++ (print_size (length (body_of b)) ++ (crlf ++ (crlf ++ body_of b)))
unfolding send_body
send_body_lem none = refl
send_body_lem (some []) = refl
send_body_lem (some (x ∷ xs)) =
    let some_bytes : ltb 0 (length (x ∷ xs)) ≡ true = ground arith in rw some_bytes refl

-- The reply around its header lines and its body.
abbrev framed : Response → Bytes → Bytes → Bytes
framed r lines body =
    codes "HTTP/1.1 " ++ (print_int r.status_code ++ (codes " OK" ++ (crlf ++ (lines ++ body))))

hbf_send_response-framed :
    (r : Response) (lines : Bytes)
    → send_headers r.headers ≡ some lines
    → hbf_send_response r ≡ some (framed r lines (send_body r.body))
unfolding hbf_send_response
hbf_send_response-framed r lines present = ap send present
  where
    send : Option Bytes → Option Bytes
    send none = none
    send (some ls) = some (framed r ls (send_body r.body))

-- A reply whose headers are all there is written: its status line and headers, then a
-- Content-Length that reads back as the number of the body's bytes, an empty line, and the body.
pub hbf_send_response-length :
    (r : Response) (lines : Bytes)
    → send_headers r.headers ≡ some lines
    → length (body_of r.body) < 10 ^ 20
    → (digits : Bytes) × (hbf_send_response r
        ≡ some (
            codes "HTTP/1.1 "
            ++ (print_int r.status_code
                ++ (codes " OK"
                    ++ (crlf
                        ++ (lines
                            ++ (codes "Content-Length: "
                                ++ (digits ++ (crlf ++ (crlf ++ body_of r.body))))))))))
      × (read10 0 digits ≡ length (body_of r.body))
hbf_send_response-length r lines present fits = (
  print_size (length (body_of r.body)),
  hbf_send_response-framed r lines present
      ∙ ap (λ b. some (framed r lines b)) (send_body_lem r.body),
  unfold print_size in read10-print_digits 20 (length (body_of r.body)) fits,
)
