-- ===== src/Proxy/Deliver.antt =====
-- internal/proxy/proxy.go: the part of `forward` that sends the request, and the part from the server's response to
-- what the client gets.
use proxy_scope.Prelude.{
  ◌+◌, ◌∷◌, ◌&&◌, ◌||◌, not, true, ◌++◌, none, length, some, List, false, Bool, [], if◌then◌else◌,
  Option, ℕ,
}
use proxy_scope.Prelude.Text.{Bytes, codes}
use proxy_scope.Http.Header.{set}
use proxy_scope.Http.Message.{Request, Response, verdict_drop, verdict_forward}
use proxy_scope.Intercept.{Outcome}
use proxy_scope.Outbound.{BodyCapture, write}
use proxy_scope.Outbound.Request.{
  Net, Stream, Url, read_up_to, read_failed, read_whole, read_part, build_request, built, refused,
  classify, remove_hop_by_hop, itoa, TransportError,
}
use proxy_scope.Proxy.Exchange.{
  Annotation, response_dropped, reading_response, gone_at_response, skipped, relaying_body,
  bad_request, upstream_failed, Exchange, Interceptor, RuleEngine, Client, Upstream, ServerResponse,
  failed, replied,
}
use proxy_scope.Proxy.Forward.{
  is_empty, too_large, skip_note, not_holdable, body_allowed, Work, Stage, returned, goes_on,
  plain_error, fail_with, annotate, note_of, out_body, body_bytes, body_length, has_body, captured,
  needs_transport,
}

-- The server's response, or the error for the client; nobody is answered if the client is gone.
unfoldable pub after_send : TransportError → Work → Stage ServerResponse
unfolding classify plain_error
after_send e w =
    let c = classify e in
    if e.canceled
    then returned (fail_with 0 (upstream_failed c.1) w)
    else returned (plain_error c.0 (upstream_failed c.1) w)

-- Building the request, and the round trip.
unfoldable pub send_request :
    Net → Upstream → Url → Bool → Option Stream → Option ℕ → Request → Work → Stage ServerResponse
unfolding build_request out_body needs_transport plain_error write after_send
send_request net up origin buffered body n req w =
    let b = out_body buffered body n req in
    elim (build_request net req.method req.url req.header (has_body b) (body_length b)) [
      | refused e ↦ returned (
          plain_error 400 (bad_request e)
            (if buffered then record w { req_cap = (write (body_bytes b) w.req_cap).0 } else w))
      | built out ↦
          let read = captured buffered (up.consumed out (body_bytes b)) (body_bytes b) in
          let w' = record w {
            req_cap = (write read w.req_cap).0;
            sent = some (record {
              out = out;
              body = body_bytes b;
              buffered = buffered;
              fresh = needs_transport net origin req w.ex.req_edited;
            });
          } in
          elim (up.round_trip out (body_bytes b)) [
            | failed e ↦ after_send e w'
            | replied resp ↦ goes_on w' resp
          ]
    ]

-- Buffering the response: what is delivered, whether its body was buffered, and the body that is left to stream.
unfoldable pub buffer_response :
    ℕ → Bool → Bool → Bool → ServerResponse → Work → Stage (Response × Bool × Stream)
unfolding not_holdable skip_note read_up_to plain_error
buffer_response max intercept rules gone resp w =
    let deliver : Response = record {
      status_code = resp.status_code;
      header = resp.header;
      body = [];
    } in
    let skip : Bytes → List Annotation =
      λ reason. skipped (skip_note (codes "response") reason intercept rules) ∷ [] in
    if not (intercept || rules)
    then goes_on w (deliver, false, resp.body)
    else elim (not_holdable resp max) [
      | some reason ↦ goes_on (annotate (skip reason) w) (deliver, false, resp.body)
      | none ↦ elim (read_up_to max resp.body) [
        | read_whole b ↦ goes_on w (record deliver { body = b }, true, resp.body)
        | read_part b rest ↦
            goes_on (annotate (skip too_large) w)
              (deliver, false, record rest { bytes = b ++ rest.bytes })
        | read_failed e ↦
            let w' = record w { ex = record w.ex { resp_headers = [] } } in
            if gone
            then returned (fail_with 0 (reading_response e) w')
            else returned (plain_error 502 (reading_response e) w')
      ]
    ]

-- The rules on the response.
unfoldable pub rule_response :
    Option RuleEngine → Request → Bool → Response → Work → Stage (Response × List Bytes)
rule_response none req buffered resp w = goes_on w (resp, [])
rule_response (some re) req buffered resp w =
    let r = re.apply_response req resp buffered in
    goes_on (record w { ex = record w.ex { rules_applied = w.ex.rules_applied ++ r.1 } }) r

abbrev no_headers : Work → Work
no_headers w = record w { ex = record w.ex { resp_headers = [] } }

abbrev after_response_hold : Bool → Response → Outcome → Work → Stage Response
after_response_hold gone resp oc w =
    if gone then returned (fail_with 0 gone_at_response (no_headers w)) else elim oc.verdict [
      | verdict_drop ↦ returned (plain_error 403 response_dropped (no_headers w))
      | verdict_forward ↦ goes_on (record w { ex = record w.ex { resp_edited = oc.edited } }) resp
    ]

-- Pause point 2.
unfoldable pub pause_response :
    Option Interceptor → Bool → Bool → Request → Response → Work → Stage Response
unfolding plain_error
pause_response none gone buffered req resp w = goes_on w resp
pause_response (some i) gone buffered req resp w =
    if not (buffered && i.response_enabled)
    then goes_on w resp
    else let h = i.hold_response req resp in
      after_response_hold gone h.0 h.1 (annotate (note_of h.1.note) w)

abbrev pub note_response : Bool → List Bytes → Response → Work → Work
note_response buffered fired deliver w =
    if buffered || not (is_empty fired)
    then record w {
      ex = record w.ex { status_code = deliver.status_code; resp_headers = deliver.header };
    }
    else w

-- copyBody: the capture, what the client got, and whether the error came from the server.
unfoldable pub copy_body :
    (ℕ → Option Bytes)
    → ℕ
    → List Bytes
    → Option Bytes
    → BodyCapture
    → Bytes
    → BodyCapture × Bytes × Option (Bool × Bytes)
unfolding write
copy_body write_error n [] none cap got = (cap, got, none)
copy_body write_error n [] (some e) cap got = (cap, got, some (true, e))
copy_body write_error n (c ∷ cs) fail cap got =
    let cap' = (write c cap).0 in
    elim (write_error n) [
      | some e ↦ (cap', got, some (false, e))
      | none ↦ copy_body write_error (n + 1) cs fail cap' (got ++ c)
    ]

-- A buffered response.
unfoldable pub deliver_buffered : Client → Bytes → Response → Work → Work
unfolding remove_hop_by_hop set itoa body_allowed write
deliver_buffered client method deliver w =
    let h = remove_hop_by_hop deliver.header in
    if not (body_allowed method deliver.status_code)
    then record w { reply = record w.reply { status = deliver.status_code; header = h } }
    else let header = set h (codes "Content-Length") (itoa (length deliver.body)) in
      let cap = (write deliver.body w.resp_cap).0 in
      elim (client.write_error 0) [
        | none ↦ record w {
          resp_cap = cap;
          reply = record w.reply {
            status = deliver.status_code;
            header = header;
            body = deliver.body;
          };
        }
        | some e ↦ record w {
          ex = record w.ex { error = relaying_body e };
          resp_cap = cap;
          reply = record w.reply { status = deliver.status_code; header = header };
        }
      ]

abbrev copy_problem : Option (Bool × Bytes) → Exchange → Exchange
copy_problem none ex = ex
copy_problem (some e) ex = record ex { error = relaying_body e.1 }

abbrev copy_aborts : Option (Bool × Bytes) → Bool
copy_aborts none = false
copy_aborts (some e) = e.0

-- A response that streams.
unfoldable pub deliver_stream : Client → Upstream → Response → Stream → Work → Work
unfolding remove_hop_by_hop copy_body
deliver_stream client up deliver body w =
    let c = copy_body client.write_error 0 (up.reads body.bytes) body.fail w.resp_cap [] in
    record w {
      ex = copy_problem c.2 w.ex;
      resp_cap = c.0;
      reply = record w.reply {
        status = deliver.status_code;
        header = remove_hop_by_hop deliver.header;
        body = c.1;
        aborted = copy_aborts c.2;
      };
    }
