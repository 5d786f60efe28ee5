-- ===== src/Proxy/Pipeline/Replied.antt =====
-- What the client gets has no hop-by-hop headers.
use proxy_scope.Outbound.{write}
use proxy_scope.Prelude.{
  length, if◌then◌else◌, ◌&&◌, none, ◌⊎◌, inl, ◌∷◌, [], some, List, inr, ◌||◌, true, false, Option,
  Bool, ◌≡◌, ℕ, refl, Bool-cases, Option-cases,
}
use proxy_scope.Prelude.Text.{Bytes, codes}
use proxy_scope.Http.Header.{set}
use proxy_scope.Http.Message.{Request, Response, Verdict, verdict_drop, verdict_forward}
use proxy_scope.Outbound.Request.{
  BuildError, classify, TransportError, Net, Stream, Url, ReadResult, read_up_to, read_failed,
  read_whole, read_part, build_request, built, refused, Built, OutRequest, remove_hop_by_hop, itoa,
}
use proxy_scope.Proxy.Exchange.{
  bad_request, upstream_failed, upstream_failed, Interceptor, RuleEngine, Incoming, Client,
  Upstream, Answer, failed, replied, reading_request, request_dropped,
}
use proxy_scope.Proxy.Forward.{
  needs_transport, captured, body_bytes, body_length, has_body, out_body, Work, plain_error,
  buffer_request, rule_request, pause_request, note_request, start, first_request, client_body,
  request_on, request_rules_on, body_allowed,
}
use proxy_scope.Proxy.Deliver.{send_request, after_send, deliver_buffered, deliver_stream}
use proxy_scope.Proxy.Pipeline.{forward, to_server, close}
use proxy_scope.Proxy.Pipeline.Stages.{Ends, bind-Ends, last-Ends}
use proxy_scope.Proxy.Pipeline.Kept.{to_client_keeps}
use proxy_scope.Proxy.Pipeline.Stripped.{
  Stripped, set-Stripped, own_headers, remove-Stripped, plain-Stripped,
}

abbrev Clean : Work → Type 0
Clean w = Stripped w.reply.header

buffers-Clean :
    (max : ℕ) (intercept rules : Bool) (body : Option Stream) (req : Request) (w : Work)
    → Clean w
    → Ends Clean (λ w' b. Clean w') (buffer_request max intercept rules body req w)
unfolding buffer_request plain_error
buffers-Clean max intercept rules body req w f = go (Bool-cases (intercept || rules)) body
  where
    Goal : Option Stream → Type 0
    Goal b = Ends Clean (λ w' a. Clean w') (buffer_request max intercept rules b req w)

    reads :
        (intercept || rules) ≡ true
        → (s : Stream) (r : ReadResult) → read_up_to max s ≡ r
        → Goal (some s)
    reads e s (read_failed x) q =
        rw (e, q, buffer_request, plain_error) (plain-Stripped 400 (reading_request x) w.reply f)
    reads e s (read_whole x) q = rw (e, q, buffer_request) f
    reads e s (read_part x t) q = rw (e, q, buffer_request) f

    go :
        ((intercept || rules) ≡ true) ⊎ ((intercept || rules) ≡ false)
        → (b : Option Stream) → Goal b
    go (inr e) b = rw (e, buffer_request) f
    go (inl e) none = rw (e, buffer_request) f
    go (inl e) (some s) = reads e s (read_up_to max s) refl

rules-Clean :
    (re : Option RuleEngine) (b : Bool) (req : Request) (w : Work)
    → Clean w
    → Ends Clean (λ w' q. Clean w') (rule_request re b req w)
unfolding rule_request
rules-Clean none b req w f = f
rules-Clean (some re) b req w f = f

pauses-Clean :
    (icpt : Option Interceptor) (gone b : Bool) (req : Request) (w : Work)
    → Clean w
    → Ends Clean (λ w' q. Clean w') (pause_request icpt gone b req w)
unfolding pause_request plain_error
pauses-Clean none gone b req w f = f
pauses-Clean (some i) gone b req w f = go (Bool-cases (b && i.request_enabled)) gone
  where
    Goal : Bool → Type 0
    Goal g = Ends Clean (λ w' q. Clean w') (pause_request (some i) g b req w)

    held :
        (b && i.request_enabled) ≡ true
        → (v : Verdict) → (i.hold_request req).1.verdict ≡ v
        → Goal false
    held e verdict_drop q =
        rw (e, q, pause_request, plain_error) (plain-Stripped 403 request_dropped w.reply f)
    held e verdict_forward q = rw (e, q, pause_request) f

    go :
        ((b && i.request_enabled) ≡ true) ⊎ ((b && i.request_enabled) ≡ false) → (g : Bool) → Goal g
    go (inr e) g = rw (e, pause_request) f
    go (inl e) true = rw (e, pause_request) f
    go (inl e) false = held e (i.hold_request req).1.verdict refl

notes-Clean :
    (net : Net) (b : Bool) (fired : List Bytes) (req : Request) (w : Work)
    → Clean w
    → Clean (note_request net b fired req w)
unfolding note_request
notes-Clean net true fired req w f = f
notes-Clean net false [] req w f = f
notes-Clean net false (x ∷ fired) req w f = f

after_send-Clean :
    (e : TransportError) (w : Work) → Clean w → Ends Clean (λ w' resp. Clean w') (after_send e w)
unfolding after_send plain_error
after_send-Clean e w f = elim (Bool-cases e.canceled) [
  | inl c ↦ rw (c, after_send) f
  | inr c ↦
      rw (c, after_send, plain_error)
        (plain-Stripped (classify e).0 (upstream_failed (classify e).1) w.reply f)
]

sends-Clean :
    (net : Net) (up : Upstream) (origin : Url) (b : Bool) (body : Option Stream) (n : Option ℕ)
    (req : Request) (w : Work)
    → Clean w
    → Ends Clean (λ w' resp. Clean w') (send_request net up origin b body n req w)
unfolding send_request plain_error
sends-Clean net up origin b body n req w f =
    go (build_request net req.method req.url req.header (has_body o) (body_length o)) refl
  where
    o : Option (Bytes × Option ℕ)
    o = out_body b body n req

    Builds : Built → Type 0
    Builds r = build_request net req.method req.url req.header (has_body o) (body_length o) ≡ r

    Goal : Type 0
    Goal = Ends Clean (λ w' resp. Clean w') (send_request net up origin b body n req w)

    answered :
        (out : OutRequest)
        → Builds (built out)
        → (a : Answer) → up.round_trip out (body_bytes o) ≡ a
        → Goal
    answered out e (replied resp) q = rw (e, q, send_request) f
    answered out e (failed t) q =
        rw (e, q, send_request)
          (after_send-Clean t
            (record w {
              req_cap =
                  (write (captured b (up.consumed out (body_bytes o)) (body_bytes o)) w.req_cap).0;
              sent = some (record {
                out = out;
                body = body_bytes o;
                buffered = b;
                fresh = needs_transport net origin req w.ex.req_edited;
              });
            })
            f)

    keeps :
        (x : BuildError) (c : Bool)
        → Clean (
            plain_error 400
              (bad_request x)
              (if c then record w { req_cap = (write (body_bytes o) w.req_cap).0 } else w))
    keeps x true = plain-Stripped 400 (bad_request x) w.reply f
    keeps x false = plain-Stripped 400 (bad_request x) w.reply f

    go : (r : Built) → Builds r → Goal
    go (built out) e = answered out e (up.round_trip out (body_bytes o)) refl
    go (refused x) e = rw (e, send_request) (keeps x b)

delivers-Clean :
    (client : Client) (up : Upstream) (method : Bytes) (b : Bool) (d : Response) (body : Stream)
    (w : Work)
    → Clean (if b then deliver_buffered client method d w else deliver_stream client up d body w)
unfolding deliver_buffered deliver_stream
delivers-Clean client up method false d body w = remove-Stripped d.header
delivers-Clean client up method true d body w =
    go (Bool-cases (body_allowed method d.status_code)) (Option-cases (client.write_error 0))
  where
    long :
        Stripped (set (remove_hop_by_hop d.header) (codes "Content-Length") (itoa (length d.body)))
    long =
        set-Stripped (remove_hop_by_hop d.header) (codes "Content-Length") (itoa (length d.body))
          own_headers.2 (remove-Stripped d.header)

    go :
        (body_allowed method d.status_code ≡ true) ⊎ (body_allowed method d.status_code ≡ false)
        → (client.write_error 0 ≡ none) ⊎ ((x : Bytes) × (client.write_error 0 ≡ some x))
        → Clean (deliver_buffered client method d w)
    go (inr e) t = rw (e, deliver_buffered) (remove-Stripped d.header)
    go (inl e) (inl q) = rw (e, q, deliver_buffered) long
    go (inl e) (inr (x, q)) = rw (e, q, deliver_buffered) long

module _ (net : Net) (max : ℕ) (icpt : Option Interceptor) (re : Option RuleEngine) (up : Upstream)
    (client : Client) where
  to_server-Clean :
      (r : Incoming)
      → Ends Clean (λ w s. Clean w) (to_server net max icpt re up client r (start max r))
  unfolding to_server start
  to_server-Clean r =
      bind-Ends Clean (λ w' b. Clean w') (λ w' s. Clean w') _ _
        (buffers-Clean max (request_on icpt) (request_rules_on re) (client_body r) (first_request r)
          (start max r) (λ name q. refl))
        (λ w1 b f1.
          bind-Ends Clean (λ w' q. Clean w') (λ w' s. Clean w') _ _ (rules-Clean re b.1 b.0 w1 f1)
            (λ w2 q f2.
              bind-Ends Clean (λ w' p. Clean w') (λ w' s. Clean w') _ _
                (pauses-Clean icpt client.gone_at_request b.1 q.0 w2 f2)
                (λ w3 req f3.
                  bind-Ends Clean (λ w' s. Clean w') (λ w' s. Clean w') _ _
                    (sends-Clean net up r.url b.1 b.2 r.content_length req
                      (note_request net b.1 q.1 req w3) (notes-Clean net b.1 q.1 req w3 f3))
                    (λ w4 resp f4. f4))))

-- The header that the client gets, of a response or of an error, has no hop-by-hop header, whatever the server, the rules and the user put in.
pub forward-Stripped :
    (net : Net) (max : ℕ) (icpt : Option Interceptor) (re : Option RuleEngine) (up : Upstream)
    (client : Client) (r : Incoming)
    → Stripped (forward net max icpt re up client r).reply.header
unfolding forward close
forward-Stripped net max icpt re up client r = last-Ends Clean _ (
    bind-Ends Clean (λ w s. Clean w) (λ w d. Clean d) _ _
      (to_server-Clean net max icpt re up client r)
      (λ w s f.
        to_client_keeps (λ m u x c reply. Stripped reply.header)
          (λ m u x c reply status cause y. plain-Stripped status cause reply y) net max icpt re up
          client s.0 s.1 w (λ b d body w' y. delivers-Clean client up s.0.method b d body w') f))
