-- ===== src/Proxy/Forward.antt =====
-- internal/proxy/proxy.go: `forward`, one request from the client to the server and back, with its two pause points. A stage
-- either returns early or goes on; what is deferred is `close`.
use proxy_scope.Prelude.{
  leb, length, ◌==◌, none, ◌||◌, ltb, ◌&&◌, take, if◌then◌else◌, not, ◌∷◌, true, false, some, ◌++◌,
  List, Option, Bool, [], ℕ,
}
use proxy_scope.Prelude.Text.{Bytes, codes, equal, to_lower, has_prefix}
use proxy_scope.Http.Header.{set, del, get}
use proxy_scope.Http.Message.{Request, verdict_drop, verdict_forward}
use proxy_scope.Intercept.{Outcome, Note, no_note}
use proxy_scope.Outbound.{BodyCapture, new_capture}
use proxy_scope.Outbound.Request.{
  Net, Stream, Url, read_up_to, read_failed, read_whole, read_part, sync_content_length,
}
use proxy_scope.Proxy.Exchange.{
  reading_request, request_dropped, gone_at_request, source_proxy, no_problem, Exchange,
  Interceptor, RuleEngine, Incoming, Reply, Sent, Problem, Annotation, skipped, noted,
  ServerResponse,
}

-- The local variables of `forward`, with what the client and the server got.
pub record Work : Type 0 where
  pub ex : Exchange
  pub req_cap : BodyCapture
  pub resp_cap : BodyCapture
  pub notes : List Annotation
  pub reply : Reply
  pub sent : Option Sent

pub data Stage (A : Type 0) : Type 0 where
  returned : Work → Stage A
  goes_on : Work → A → Stage A

infixl 5 ◌>>=◌
abbrev pub ◌>>=◌ : {A B : Type 0} → Stage A → (Work → A → Stage B) → Stage B
returned w >>= next = returned w
goes_on w a >>= next = next w a

abbrev pub annotate : List Annotation → Work → Work
annotate notes w = record w { notes = w.notes ++ notes }

abbrev pub note_of : Note → List Annotation
note_of no_note = []
note_of n = noted n ∷ []

-- `ex.StatusCode, ex.Error = status, problem`.
abbrev pub fail_with : ℕ → Problem → Work → Work
fail_with status problem w = record w { ex = record w.ex { status_code = status; error = problem } }

-- What plainError writes.
unfoldable pub plain_reply : ℕ → Problem → Reply → Reply
unfolding set
plain_reply status problem reply = record reply {
  status = status;
  header =
      set (set reply.header (codes "Content-Type") (codes "text/plain; charset=utf-8"))
        (codes "X-Content-Type-Options") (codes "nosniff");
  message = problem;
}

-- plainError after that.
unfoldable pub plain_error : ℕ → Problem → Work → Work
unfolding plain_reply
plain_error status problem w = record (fail_with status problem w) {
  reply = plain_reply status problem w.reply;
}

abbrev skipped_names : Bool → Bool → Bytes
skipped_names true true = codes "intercepted/rule-processed"
skipped_names true false = codes "intercepted"
skipped_names false true = codes "rule-processed"
skipped_names false false = []

unfoldable pub skip_note : Bytes → Bytes → Bool → Bool → Bytes
skip_note what reason intercept rules =
    what ++ codes " not " ++ skipped_names intercept rules ++ codes ": " ++ reason

abbrev pub too_large : Bytes
too_large = codes "body larger than -max-body"

unfoldable pub not_holdable : ServerResponse → ℕ → Option Bytes
unfolding has_prefix to_lower get
not_holdable resp max =
    if has_prefix (to_lower (get resp.header (codes "Content-Type"))) (codes "text/event-stream")
    then some (codes "streaming response (text/event-stream)")
    else elim resp.content_length [
      | none ↦ none
      | some n ↦ if ltb max n then some too_large else none
    ]

unfoldable pub body_allowed : Bytes → ℕ → Bool
unfolding equal
body_allowed method status =
    not (equal method (codes "HEAD"))
    && leb 200 status
    && not (status == 204)
    && not (status == 304)

-- `url.Parse` of an edited URL that fails leaves host and path.
unfoldable pub record_edited_request : Net → Request → Bool → Exchange → Exchange
unfolding del sync_content_length
record_edited_request net req sync ex =
    let headers = del req.header (codes "Host") in
    let ex' = record ex {
      method = req.method;
      url = req.url;
      req_headers = if sync then sync_content_length headers (length req.body) else headers;
    } in
    elim (net.parse_url req.url) [
      | none ↦ ex'
      | some u ↦ record ex' { host = u.host; path = u.request_uri }
    ]

abbrev pub request_on : Option Interceptor → Bool
request_on none = false
request_on (some i) = i.request_enabled

abbrev pub response_on : Option Interceptor → Bool
response_on none = false
response_on (some i) = i.response_enabled

abbrev pub request_rules_on : Option RuleEngine → Bool
request_rules_on none = false
request_rules_on (some re) = re.needs_request_body

abbrev pub response_rules_on : Option RuleEngine → Bool
response_rules_on none = false
response_rules_on (some re) = re.needs_response_body

abbrev pub client_body : Incoming → Option Stream
client_body r = if has_none r.content_length then none else r.body
  where
    has_none : Option ℕ → Bool
    has_none none = false
    has_none (some n) = n == 0

unfoldable pub start : ℕ → Incoming → Work
start max r = record {
  ex = record {
    method = r.method;
    url = r.url_text;
    host = r.url.host;
    path = r.url.request_uri;
    proto = r.proto;
    req_headers = r.header;
    req_body = [];
    req_body_size = 0;
    status_code = 0;
    resp_headers = [];
    resp_body = [];
    resp_body_size = 0;
    error = no_problem;
    source = source_proxy;
    req_edited = false;
    resp_edited = false;
    rules_applied = [];
    note = [];
  };
  req_cap = new_capture max;
  resp_cap = new_capture max;
  notes = [];
  reply = record { status = 0; header = []; body = []; message = no_problem; aborted = false };
  sent = none;
}

-- The request as the client sent it, with Host made explicit.
unfoldable pub first_request : Incoming → Request
unfolding set
first_request r = record {
  method = r.method;
  url = r.url_text;
  header = set r.header (codes "Host") r.host;
  body = [];
}

-- Buffering the request body: the request, whether it was buffered, and the body that is left to stream.
unfoldable pub buffer_request :
    ℕ → Bool → Bool → Option Stream → Request → Work → Stage (Request × Bool × Option Stream)
unfolding plain_error read_up_to skip_note
buffer_request max intercept rules body req w =
    if not (intercept || rules) then goes_on w (req, false, body) else elim body [
      | none ↦ goes_on w (req, true, none)
      | some s ↦ elim (read_up_to max s) [
        | read_failed e ↦ returned (plain_error 400 (reading_request e) w)
        | read_whole b ↦ goes_on w (record req { body = b }, true, some s)
        | read_part b rest ↦
            goes_on
              (annotate (skipped (skip_note (codes "request") too_large intercept rules) ∷ []) w)
              (req, false, some (record rest { bytes = b ++ rest.bytes }))
      ]
    ]

-- The rules on the request: what they leave of it, and which fired.
unfoldable pub rule_request :
    Option RuleEngine → Bool → Request → Work → Stage (Request × List Bytes)
rule_request none buffered req w = goes_on w (req, [])
rule_request (some re) buffered req w =
    let r = re.apply_request req buffered in
    goes_on (record w { ex = record w.ex { rules_applied = w.ex.rules_applied ++ r.1 } }) r

abbrev after_hold : Bool → Request → Outcome → Work → Stage Request
after_hold gone req oc w =
    if gone then returned (fail_with w.ex.status_code gone_at_request w) else elim oc.verdict [
      | verdict_drop ↦ returned (plain_error 403 request_dropped w)
      | verdict_forward ↦
          goes_on (record w { ex = record w.ex { req_edited = w.ex.req_edited || oc.edited } }) req
    ]

-- Pause point 1.
unfoldable pub pause_request : Option Interceptor → Bool → Bool → Request → Work → Stage Request
unfolding plain_error
pause_request none gone buffered req w = goes_on w req
pause_request (some i) gone buffered req w =
    if not (buffered && i.request_enabled)
    then goes_on w req
    else let h = i.hold_request req in after_hold gone h.0 h.1 (annotate (note_of h.1.note) w)

abbrev pub is_empty : List Bytes → Bool
is_empty [] = true
is_empty (x ∷ xs) = false

unfoldable pub note_request : Net → Bool → List Bytes → Request → Work → Work
unfolding record_edited_request
note_request net buffered fired req w =
    if buffered || not (is_empty fired)
    then record w { ex = record_edited_request net req buffered w.ex }
    else w

abbrev pub base_of : Url → Bytes
base_of u = u.scheme ++ codes "://" ++ u.host

-- Whether the request needs a transport of its own.
unfoldable pub needs_transport : Net → Url → Request → Bool → Bool
unfolding equal
needs_transport net origin req edited = if not edited then false else elim (net.parse_url req.url) [
  | none ↦ false
  | some u ↦ not (equal (base_of u) (base_of origin))
]

-- The body that is sent, and its length.
unfoldable pub out_body : Bool → Option Stream → Option ℕ → Request → Option (Bytes × Option ℕ)
out_body true body n req =
    if ltb 0 (length req.body) then some (req.body, some (length req.body)) else none
out_body false none n req = none
out_body false (some s) n req = some (s.bytes, n)

abbrev pub body_bytes : Option (Bytes × Option ℕ) → Bytes
body_bytes none = []
body_bytes (some b) = b.0

abbrev pub body_length : Option (Bytes × Option ℕ) → Option ℕ
body_length none = some 0
body_length (some b) = b.1

abbrev pub has_body : Option (Bytes × Option ℕ) → Bool
has_body none = false
has_body (some b) = true

-- A buffered body is captured at once, another one as it is read.
abbrev pub captured : Bool → ℕ → Bytes → Bytes
captured true n body = body
captured false n body = take n body
