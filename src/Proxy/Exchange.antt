-- ===== src/Proxy/Exchange.antt =====
-- internal/model/model.go and the interfaces of internal/proxy/proxy.go: a recorded exchange, the pause points, and
-- what the proxy gets from the client and from the server. The texts of errors are the constructors of
-- `Problem`; the clock is left out.
use proxy_scope.Prelude.{ℕ, Bool, List, Option}
use proxy_scope.Prelude.Text.{Bytes}
use proxy_scope.Http.Header.{Header}
use proxy_scope.Http.Message.{Request, Response}
use proxy_scope.Intercept.{Outcome, Note}
use proxy_scope.Outbound.Request.{BuildError, Failure, OutRequest, Stream, TransportError, Url}

pub data Source : Type 0 where
  source_proxy source_repeater : Source

pub data Problem : Type 0 where
  no_problem gone_at_request request_dropped gone_at_response response_dropped : Problem
  reading_request reading_response relaying_body : Bytes → Problem
  bad_request : BuildError → Problem
  upstream_failed : Failure → Problem

pub data Annotation : Type 0 where
  skipped : Bytes → Annotation
  noted : Note → Annotation

pub record Exchange : Type 0 where
  pub method : Bytes
  pub url : Bytes
  pub host : Bytes
  pub path : Bytes
  pub proto : Bytes
  pub req_headers : Header
  pub req_body : Bytes
  pub req_body_size : ℕ
  pub status_code : ℕ
  pub resp_headers : Header
  pub resp_body : Bytes
  pub resp_body_size : ℕ
  pub error : Problem
  pub source : Source
  pub req_edited : Bool
  pub resp_edited : Bool
  pub rules_applied : List Bytes
  pub note : List Annotation

-- The Hold methods return the message as they leave it.
pub record Interceptor : Type 0 where
  pub request_enabled : Bool
  pub response_enabled : Bool
  pub hold_request : Request → Request × Outcome
  pub hold_response : Request → Response → Response × Outcome

pub record RuleEngine : Type 0 where
  pub needs_request_body : Bool
  pub needs_response_body : Bool
  pub apply_request : Request → Bool → Request × List Bytes
  pub apply_response : Request → Response → Bool → Response × List Bytes

-- The client's request as net/http hands it over; no content length is -1.
pub record Incoming : Type 0 where
  pub method : Bytes
  pub url_text : Bytes
  pub url : Url
  pub host : Bytes
  pub proto : Bytes
  pub header : Header
  pub content_length : Option ℕ
  pub body : Option Stream

-- Whether the client is gone after a hold or a failed read, and the error of each write to it.
pub record Client : Type 0 where
  pub gone_at_request : Bool
  pub gone_at_read : Bool
  pub gone_at_response : Bool
  pub write_error : ℕ → Option Bytes

pub record ServerResponse : Type 0 where
  pub status_code : ℕ
  pub header : Header
  pub content_length : Option ℕ
  pub body : Stream

pub data Answer : Type 0 where
  failed : TransportError → Answer
  replied : ServerResponse → Answer

-- The server's answer to a request with this body, and how many bytes of the body it reads. `reads` is how the
-- body of a response arrives.
pub record Upstream : Type 0 where
  pub consumed : OutRequest → Bytes → ℕ
  pub round_trip : OutRequest → Bytes → Answer
  pub reads : Bytes → List Bytes

-- What the client gets: the status, 0 before the header is written, and the body or the message of an error.
pub record Reply : Type 0 where
  pub status : ℕ
  pub header : Header
  pub body : Bytes
  pub message : Problem
  pub aborted : Bool

-- What the server gets; `buffered` if the whole body was read before, `fresh` if it goes over a transport of its own.
pub record Sent : Type 0 where
  pub out : OutRequest
  pub body : Bytes
  pub buffered : Bool
  pub fresh : Bool
