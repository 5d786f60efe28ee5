-- ===== src/Proxy/Pipeline.antt =====
-- internal/proxy/proxy.go: the stages of `forward`, one after the other, and what is saved.
pub mod Stages
pub mod Kept
pub mod Recorded
pub mod Saved
pub mod Dropped
pub mod Stripped
pub mod Replied
mod Tests
use proxy_scope.Http.Message.{Request}
use proxy_scope.Proxy.Deliver.{
  note_response, send_request, deliver_stream, deliver_buffered, pause_response, rule_response,
  buffer_response,
}
use proxy_scope.Prelude.{if◌then◌else◌, Option, ℕ}
use proxy_scope.Outbound.Request.{Net}
use proxy_scope.Proxy.Exchange.{
  ServerResponse, Exchange, Interceptor, RuleEngine, Incoming, Client, Upstream, Reply, Sent,
}
use proxy_scope.Proxy.Forward.{
  client_body, response_rules_on, request_rules_on, response_on, request_on, note_request,
  pause_request, rule_request, buffer_request, first_request, start, Work, Stage, returned, goes_on,
  ◌>>=◌,
}

pub record Result : Type 0 where
  pub saved : Exchange
  pub reply : Reply
  pub sent : Option Sent

-- What is deferred: the exchange is saved, whatever the stages did.
unfoldable pub close : Work → Result
close w = record {
  saved = record w.ex {
    req_body = w.req_cap.buf;
    req_body_size = w.req_cap.total;
    resp_body = w.resp_cap.buf;
    resp_body_size = w.resp_cap.total;
    note = w.notes;
  };
  reply = w.reply;
  sent = w.sent;
}

abbrev pub last : Stage Work → Work
last (returned w) = w
last (goes_on w w') = w'

module _ (net : Net) (max : ℕ) (icpt : Option Interceptor) (re : Option RuleEngine) (up : Upstream)
    (client : Client) where
  -- From the client to the server: the request as it was sent, and the response.
  unfoldable pub to_server : Incoming → Work → Stage (Request × ServerResponse)
  unfolding first_request buffer_request rule_request pause_request note_request send_request
  to_server r w =
      buffer_request max (request_on icpt) (request_rules_on re) (client_body r) (first_request r) w
      >>= λ w1 b. rule_request re b.1 b.0 w1 >>= λ w2 q.
          pause_request icpt client.gone_at_request b.1 q.0 w2 >>= λ w3 req.
          send_request net up r.url b.1 b.2 r.content_length req (note_request net b.1 q.1 req w3)
          >>= λ w4 resp. goes_on w4 (req, resp)

  -- From the server to the client.
  unfoldable pub to_client : Request → ServerResponse → Work → Stage Work
  unfolding buffer_response rule_response pause_response deliver_buffered deliver_stream
  to_client req resp w =
      buffer_response max (response_on icpt) (response_rules_on re) client.gone_at_read resp
        (record w {
          ex = record w.ex { status_code = resp.status_code; resp_headers = resp.header };
        })
      >>= λ w1 b. rule_response re req b.1 b.0 w1 >>= λ w2 q.
          pause_response icpt client.gone_at_response b.1 req q.0 w2 >>= λ w3 deliver.
          let w4 = note_response b.1 q.1 deliver w3 in
          goes_on w4 (
            if b.1
            then deliver_buffered client req.method deliver w4
            else deliver_stream client up deliver b.2 w4)

  unfoldable pub forward : Incoming → Result
  unfolding to_server to_client start close
  forward r = close (last (to_server r (start max r) >>= λ w s. to_client s.0 s.1 w))
