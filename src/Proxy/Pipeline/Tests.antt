-- ===== src/Proxy/Pipeline/Tests.antt =====
-- Requests through the proxy.
use proxy_scope.Proxy.Pipeline.Recorded.{shown_body}
use proxy_scope.Proxy.Pipeline.Replied.{forward-Stripped}
use proxy_scope.Proxy.Pipeline.Stripped.{Stripped}
use proxy_scope.Prelude.Text.{
  is_upper, is_lower, is_digit, has_byte, byte_to_lower, byte_to_upper, equal,
}
use proxy_scope.Http.Header.{canonical, all_token, capitalise, is_token_byte}
use proxy_scope.Prelude.{◌≤◌, take, false, length, true, arith, ◌≡◌, refl, none, some, [], ◌∷◌}
use proxy_scope.Prelude.Text.{is_lower, byte_to_upper, byte_to_lower, equal, codes}
use proxy_scope.Http.Header.{is_token_byte, capitalise, all_token, canonical, values, set}
use proxy_scope.Http.Message.{verdict_drop, Request}
use proxy_scope.Intercept.{no_note, finish_request, finish_response}
use proxy_scope.Outbound.Request.{Net, Url, Stream, build_request, sent_header, sent_method}
use proxy_scope.Outbound.Request.Hop.{named, never_sent}
use proxy_scope.Proxy.Exchange.{Interceptor, Incoming, Client, Upstream, Sent, replied}
use proxy_scope.Proxy.Forward.{
  start, first_request, buffer_request, rule_request, pause_request, note_request, out_body,
  needs_transport, client_body,
}
use proxy_scope.Proxy.Deliver.{send_request}
use proxy_scope.Proxy.Pipeline.{forward, to_server, to_client, close}
use proxy_scope.Proxy.Pipeline.Saved.{sent_is_saved, sent_is_stripped}
use proxy_scope.Proxy.Pipeline.Dropped.{EndsDropped, dropped_is_not_sent}

abbrev site : Url
site = record {
  scheme = codes "http";
  host = codes "a.test";
  hostname = codes "a.test";
  request_uri = codes "/";
}

abbrev net : Net
net = record { parse_url = λ u. some site; new_request = λ m u. some (codes "a.test") }

abbrev server : Upstream
server = record {
  consumed = λ out body. length body;
  round_trip = λ out body. replied (record {
    status_code = 200;
    header = [];
    content_length = some 2;
    body = record { bytes = 104 ∷ 105 ∷ []; fail = none };
  });
  reads = λ body. body ∷ [];
}

abbrev client : Client
client = record {
  gone_at_request = false;
  gone_at_read = false;
  gone_at_response = false;
  write_error = λ n. none;
}

abbrev posted : Incoming
posted = record {
  method = codes "POST";
  url_text = codes "http://a.test/";
  url = site;
  host = codes "a.test";
  proto = codes "HTTP/1.1";
  header = (codes "Connection", codes "close" ∷ []) ∷ [];
  content_length = some 3;
  body = some (record { bytes = 1 ∷ 2 ∷ 3 ∷ []; fail = none });
}

-- The user drops everything.
abbrev dropping : Interceptor
dropping = record {
  request_enabled = true;
  response_enabled = false;
  hold_request = λ req.
      finish_request req (record { drop = true; request = none; response = none; note = no_note });
  hold_response = λ req resp.
      finish_response resp
        (record { drop = true; request = none; response = none; note = no_note });
}

dropping-drops : (req : Request) → (dropping.hold_request req).1.verdict ≡ verdict_drop
unfolding finish_request
dropping-drops req = refl

posted-fits : (s : Stream) → client_body posted ≡ some s → length s.bytes ≤ 10
posted-fits s e = ground arith

dropped_is_not_sent_example :
    ((forward net 10 (some dropping) none server client posted).sent ≡ none)
    × EndsDropped
        (forward net 10 (some dropping) none server client posted).saved.error
        (forward net 10 (some dropping) none server client posted).reply.status
dropped_is_not_sent_example =
    dropped_is_not_sent net 10 dropping none server client posted (omega arith) refl dropping-drops
      posted-fits

-- What the server gets if nothing is held.
abbrev posted_out : Sent
posted_out = record {
  out = record {
    method = codes "POST";
    url = codes "http://a.test/";
    host = codes "a.test";
    header = sent_header (set posted.header (codes "Host") (codes "a.test"));
    has_body = true;
    content_length = some 3;
  };
  body = 1 ∷ 2 ∷ 3 ∷ [];
  buffered = false;
  fresh = false;
}

posted-sent : (forward net 10 none none server client posted).sent ≡ some posted_out
unfolding forward close to_server to_client start first_request buffer_request rule_request
    pause_request note_request send_request build_request out_body needs_transport canonical
posted-sent = refl

sent_is_saved_example :
    (posted_out.out.method
      ≡ sent_method (forward net 10 none none server client posted).saved.method)
    × (posted_out.out.url ≡ (forward net 10 none none server client posted).saved.url)
    × ((forward net 10 none none server client posted).saved.req_body
        ≡ take 10 (shown_body server posted_out))
    × ((forward net 10 none none server client posted).saved.req_body_size
        ≡ length (shown_body server posted_out))
sent_is_saved_example =
    sent_is_saved net 10 none none server client posted posted_out (omega arith) tt posted-sent
      (omega arith)

connection-never_sent : named (codes "Connection") never_sent ≡ true
unfolding canonical all_token capitalise equal is_token_byte byte_to_lower byte_to_upper is_lower
    is_upper is_digit has_byte
connection-never_sent = refl

sent_is_stripped_example : values posted_out.out.header (codes "Connection") ≡ []
sent_is_stripped_example =
    sent_is_stripped net 10 none none server client posted posted_out (codes "Connection") tt
      posted-sent connection-never_sent

forward-Stripped_example : Stripped (forward net 10 none none server client posted).reply.header
forward-Stripped_example = forward-Stripped net 10 none none server client posted
