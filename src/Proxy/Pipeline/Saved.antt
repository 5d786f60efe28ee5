-- ===== src/Proxy/Pipeline/Saved.antt =====
-- What `forward` sends, and what it saves of it.
use proxy_scope.Http.Header.{values}
use proxy_scope.Prelude.Word.{int64_limit}
use proxy_scope.Prelude.Text.{Bytes}
use proxy_scope.Proxy.Forward.{◌>>=◌}
use mathlib.Core.List.{append-nil}
use proxy_scope.Outbound.Prefix.{capture_prefix, write_all}
use proxy_scope.Prelude.{
  if◌then◌else◌, Bool, ◌≤◌, length-take, arith, ◌∙◌, [], ap, ◌∷◌, take, true, length, some, ◌<◌,
  false, Option, ◌≡◌, ℕ, refl,
}
use proxy_scope.Outbound.{new_capture, write}
use proxy_scope.Outbound.Request.{Net, sent_method}
use proxy_scope.Outbound.Request.Hop.{named, never_sent, sent_header-stripped}
use proxy_scope.Proxy.Exchange.{Interceptor, RuleEngine, Incoming, Client, Upstream, Sent}
use proxy_scope.Proxy.Forward.{
  note_request, request_rules_on, request_on, start, first_request, client_body,
}
use proxy_scope.Proxy.Pipeline.{forward, to_server, to_client, close, last}
use proxy_scope.Proxy.Pipeline.Stages.{Ends, bind-Ends, last-Ends}
use proxy_scope.Proxy.Pipeline.Recorded.{
  shown_body, Untouched, KeepsTarget, Recorded, RecordedAs, About, buffers, rules-About, pauses,
  notes-About, sends,
}
use proxy_scope.Proxy.Pipeline.Kept.{deliver_keeps, to_client_keeps}

module _ (net : Net) (max : ℕ) (icpt : Option Interceptor) (re : Option RuleEngine) (up : Upstream)
    (client : Client) where
  start-About : (r : Incoming) → About max (first_request r) (start max r)
  unfolding start first_request
  start-About r = ((refl, refl), refl, refl)

  to_server_records :
      (r : Incoming)
      → KeepsTarget re
      → Ends
          (Recorded up max)
          (λ w s. Recorded up max w)
          (to_server net max icpt re up client r (start max r))
  unfolding to_server
  to_server_records r k =
      bind-Ends (Recorded up max) (λ w' b. About max b.0 w') (λ w' s. Recorded up max w') _ _
        (buffers up max max (request_on icpt) (request_rules_on re) (client_body r)
          (first_request r) (start max r) (start-About r))
        (λ w1 b f1.
          bind-Ends (Recorded up max) (λ w' q. About max q.0 w') (λ w' s. Recorded up max w') _ _
            (rules-About up max re b.1 b.0 w1 k f1)
            (λ w2 q f2.
              bind-Ends (Recorded up max)
                (λ w' p. Untouched max w' × ((b.1 ≡ false) → About max p w'))
                (λ w' s. Recorded up max w') _ _
                (pauses up max icpt client.gone_at_request b.1 q.0 w2 f2)
                (λ w3 req f3.
                  bind-Ends (Recorded up max) (λ w' s. Recorded up max w')
                    (λ w' s. Recorded up max w') _ _
                    (sends up max net r.url b.1 b.2 r.content_length req
                      (note_request net b.1 q.1 req w3)
                      (notes-About up max net b.1 q.1 req w3 f3.0 f3.1))
                    (λ w4 resp f4. f4))))

  forward_records :
      (r : Incoming)
      → KeepsTarget re
      → Recorded up max (
          last (
            to_server net max icpt re up client r (start max r) >>= λ w s.
            to_client net max icpt re up client s.0 s.1 w))
  forward_records r k = last-Ends (Recorded up max) _ (
      bind-Ends (Recorded up max) (λ w s. Recorded up max w) (λ w d. Recorded up max d) _ _
        (to_server_records r k)
        (λ w s f.
          to_client_keeps (λ m u x c reply. RecordedAs up max m u x c)
            (λ m u x c reply status problem y. y) net max icpt re up client s.0 s.1 w
            (λ b d body w' y. deliver_keeps (RecordedAs up max) client up b s.0.method d body w' y)
            f))

one_write :
    (max : ℕ) (p : Bytes)
    → max < int64_limit
    → length p < int64_limit
    → ((write p (new_capture max)).0.buf ≡ take max p)
      × ((write p (new_capture max)).0.total ≡ length p)
unfolding write_all
one_write max p m l =
    let (b, t) = capture_prefix max (p ∷ []) m (rw (append-nil p) l) in
    (b ∙ ap (take max) (append-nil p), t ∙ ap length (append-nil p))

length-shown_body : (up : Upstream) (x : Sent) → length (shown_body up x) ≤ length x.body
length-shown_body up x = go x.buffered
  where
    go :
        (b : Bool)
        → length (if b then x.body else take (up.consumed x.out x.body) x.body) ≤ length x.body
    go true = omega arith
    go false = omega (arith, length-take (up.consumed x.out x.body) x.body)

-- Whatever rules, holds and edits do, the exchange that is saved has the method and the URL that were sent, and its
-- request body and its size are those of the body that was sent, cut at the cap and counted in full: all of a body that was
-- buffered, and of one that was streamed as much as the server read. The rules leave method and URL; the cap and the body
-- are below 2^63 bytes.
pub sent_is_saved :
    (net : Net) (max : ℕ) (icpt : Option Interceptor) (re : Option RuleEngine) (up : Upstream)
    (client : Client) (r : Incoming) (x : Sent)
    → max < int64_limit
    → KeepsTarget re
    → (forward net max icpt re up client r).sent ≡ some x
    → length x.body < int64_limit
    → (x.out.method ≡ sent_method (forward net max icpt re up client r).saved.method)
      × (x.out.url ≡ (forward net max icpt re up client r).saved.url)
      × ((forward net max icpt re up client r).saved.req_body ≡ take max (shown_body up x))
      × ((forward net max icpt re up client r).saved.req_body_size ≡ length (shown_body up x))
unfolding forward close
sent_is_saved net max icpt re up client r x m k e l =
    let f = forward_records net max icpt re up client r k x e in
    let (b, t) = one_write max (shown_body up x) m (omega (arith, length-shown_body up x)) in
    (f.0, f.1, ap (λ z. z.buf) f.3 ∙ b, ap (λ z. z.total) f.3 ∙ t)

-- What is sent to the server has no Host header in its header map and no hop-by-hop header, whatever the client, the rules and the user put in. The
-- rules leave method and URL.
pub sent_is_stripped :
    (net : Net) (max : ℕ) (icpt : Option Interceptor) (re : Option RuleEngine) (up : Upstream)
    (client : Client) (r : Incoming) (x : Sent) (name : Bytes)
    → KeepsTarget re
    → (forward net max icpt re up client r).sent ≡ some x
    → named name never_sent ≡ true
    → values x.out.header name ≡ []
unfolding forward close
sent_is_stripped net max icpt re up client r x name k e h =
    let f = forward_records net max icpt re up client r k x e in
    let (g, c) = f.2 in ap (λ z. values z name) c ∙ sent_header-stripped g name h
