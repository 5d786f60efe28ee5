-- ===== src/Outbound/Request.antt =====
-- internal/outbound/outbound.go: hop-by-hop headers, the request that is sent to a server, the bounded read, and the
-- errors of a round trip. The package net/url and the checks of http.NewRequest are the parameter `Net`. A reader is a `Stream`:
-- the bytes it yields, and the error it ends with, if any.
pub mod Hop
pub mod Listed
pub mod Reads
mod Tests
use proxy_scope.Prelude.Decimal.{decimal_digits}
use proxy_scope.Prelude.{
  leb, ltb, ℕ, Bool, true, false, List, Option, none, some, [], ◌∷◌, ◌++◌, if◌then◌else◌, not, ◌&&◌,
  ◌||◌, ◌==◌, take, drop, length,
}
use proxy_scope.Prelude.Text.{Bytes, codes, equal, trim_space}
use proxy_scope.Prelude.Word.{add64, lt64}
use proxy_scope.Http.Header.{Header, values, get, set, del, lookup}

-- strings.Split(s, ","): `word` is the part before the next comma.
abbrev pub grow : ℕ → List Bytes → List Bytes
grow c [] = (c ∷ []) ∷ []
grow c (w ∷ ws) = (c ∷ w) ∷ ws

unfoldable pub split_commas : Bytes → List Bytes
split_commas [] = [] ∷ []
split_commas (c ∷ s) = let rest = split_commas s in if c == b',' then [] ∷ rest else grow c rest

abbrev pub hop_by_hop : List Bytes
hop_by_hop =
    codes "Connection"
    ∷ codes "Proxy-Connection"
    ∷ codes "Keep-Alive"
    ∷ codes "Proxy-Authenticate"
    ∷ codes "Proxy-Authorization"
    ∷ codes "Te"
    ∷ codes "Trailer"
    ∷ codes "Transfer-Encoding"
    ∷ codes "Upgrade"
    ∷ []

-- The names in one value of Connection, and in all of them.
unfoldable pub trimmed_names : List Bytes → List Bytes
unfolding equal trim_space
trimmed_names [] = []
trimmed_names (w ∷ ws) =
    let rest = trimmed_names ws in
    let name = trim_space w in if equal name [] then rest else name ∷ rest

unfoldable pub connection_names : List Bytes → List Bytes
unfolding trimmed_names split_commas
connection_names [] = []
connection_names (v ∷ vs) = trimmed_names (split_commas v) ++ connection_names vs

unfoldable pub del_all : List Bytes → Header → Header
unfolding del
del_all [] h = h
del_all (name ∷ names) h = del_all names (del h name)

unfoldable pub remove_hop_by_hop : Header → Header
unfolding del_all connection_names values
remove_hop_by_hop h =
    del_all hop_by_hop (del_all (connection_names (values h (codes "Connection"))) h)

pub record Url : Type 0 where
  pub scheme : Bytes
  pub host : Bytes
  pub hostname : Bytes
  pub request_uri : Bytes

-- url.Parse; and http.NewRequest for a URL that parses: the host of the request, none if a check fails.
pub record Net : Type 0 where
  pub parse_url : Bytes → Option Url
  pub new_request : Bytes → Bytes → Option Bytes

pub record OutRequest : Type 0 where
  pub method : Bytes
  pub url : Bytes
  pub host : Bytes
  pub header : Header
  pub has_body : Bool
  pub content_length : Option ℕ

pub data BuildError : Type 0 where
  invalid_url unsupported_scheme no_host invalid_request : BuildError

pub data Built : Type 0 where
  built : OutRequest → Built
  refused : BuildError → Built

-- The header that is sent: without Host and hop-by-hop headers, with an empty User-Agent if there is none.
unfoldable pub sent_header : Header → Header
unfolding del remove_hop_by_hop set lookup
sent_header h =
    let hdr = remove_hop_by_hop (del h (codes "Host")) in
    elim (lookup (codes "User-Agent") hdr) [ none ↦ set hdr (codes "User-Agent") [] | some v ↦ hdr ]

-- http.NewRequest turns no method into GET.
unfoldable pub sent_method : Bytes → Bytes
unfolding equal
sent_method method = if equal method [] then codes "GET" else method

-- `body` says whether there is one; a length of none is -1.
unfoldable pub build_request : Net → Bytes → Bytes → Header → Bool → Option ℕ → Built
unfolding sent_header sent_method get equal
build_request net method url h body content_length = elim (net.parse_url url) [
  | none ↦ refused invalid_url
  | some u ↦
      if not (equal u.scheme (codes "http")) && not (equal u.scheme (codes "https"))
      then refused unsupported_scheme
      else if equal u.hostname []
      then refused no_host
      else elim (net.new_request method url) [
        | none ↦ refused invalid_request
        | some host ↦ built (record {
          method = sent_method method;
          url = url;
          host = if equal (get h (codes "Host")) [] then host else get h (codes "Host");
          header = sent_header h;
          has_body = body;
          content_length = if body then content_length else some 0;
        })
      ]
]

pub record Stream : Type 0 where
  pub bytes : Bytes
  pub fail : Option Bytes

pub data ReadResult : Type 0 where
  read_failed : Bytes → ReadResult
  read_whole : Bytes → ReadResult
  read_part : Bytes → Stream → ReadResult

-- io.ReadAll of an io.LimitReader: the bytes, and the error. A limit that is not positive is the end at once.
abbrev pub read_limited : ℕ → Stream → Bytes × Option Bytes
read_limited limit s =
    if not (lt64 0 limit)
    then ([], none)
    else if leb limit (length s.bytes)
    then (take limit s.bytes, none)
    else (s.bytes, s.fail)

-- Whether the bytes that were read are all; `read_part` has the reader that is left.
abbrev pub whole_or_part : ℕ → Stream → Bytes → ReadResult
whole_or_part max s buf =
    if not (lt64 max (length buf))
    then read_whole buf
    else read_part buf (record s { bytes = drop (length buf) s.bytes })

abbrev pub read_outcome : ℕ → Stream → Bytes × Option Bytes → ReadResult
read_outcome max s (buf, some e) = read_failed e
read_outcome max s (buf, none) = whole_or_part max s buf

unfoldable pub read_up_to : ℕ → Stream → ReadResult
unfolding add64 lt64
read_up_to max s = read_outcome max s (read_limited (add64 max 1) s)

-- What errors.As and errors.Is find in an error of a round trip.
pub record TransportError : Type 0 where
  pub canceled : Bool
  pub certificate : Bool
  pub not_tls : Bool
  pub dns : Bool
  pub deadline : Bool
  pub timeout : Bool
  pub dial : Bool

pub data Failure : Type 0 where
  client_closed certificate_failed no_tls cannot_resolve timed_out cannot_connect other_error :
      Failure

unfoldable pub classify : TransportError → ℕ × Failure
classify e =
    if e.canceled
    then (0, client_closed)
    else if e.certificate
    then (502, certificate_failed)
    else if e.not_tls
    then (502, no_tls)
    else if e.dns
    then (502, cannot_resolve)
    else if e.deadline || e.timeout
    then (504, timed_out)
    else if e.dial
    then (502, cannot_connect)
    else (502, other_error)

-- strconv.Itoa, for a number of at most 19 digits.
unfoldable pub itoa : ℕ → Bytes
itoa n = decimal_digits 19 n

unfoldable pub sync_content_length : Header → ℕ → Header
unfolding set del itoa
sync_content_length h n =
    if ltb 0 n then set h (codes "Content-Length") (itoa n) else del h (codes "Content-Length")
