-- ===== src/Proxy/Pipeline/Dropped.antt =====
-- A request that the user drops.
use mathlib.Core.Path.{subst}
use proxy_scope.Prelude.Text.{Bytes}
use proxy_scope.Prelude.{
  ap, length-append, arith, false, inl, ◌≤◌, length, inr, some, Option, Bool, true, ◌<◌, none, ◌+◌,
  ◌⊎◌, ◌≡◌, ℕ, refl,
}
use proxy_scope.Prelude.Word.{int64_limit}
use proxy_scope.Http.Message.{Request, verdict_drop}
use proxy_scope.Outbound.Request.{
  Net, Stream, ReadResult, read_up_to, read_failed, read_whole, read_part,
}
use proxy_scope.Outbound.Request.Reads.{ReadsTo, read_up_to-ReadsTo}
use proxy_scope.Proxy.Exchange.{
  Interceptor, RuleEngine, Incoming, Client, Upstream, Problem, request_dropped, gone_at_request,
  reading_request,
}
use proxy_scope.Proxy.Forward.{
  request_rules_on, Work, start, first_request, client_body, plain_error, buffer_request,
  rule_request, pause_request,
}
use proxy_scope.Proxy.Pipeline.{forward, to_server, close}
use proxy_scope.Proxy.Pipeline.Stages.{Ends, bind-Ends, last-Ends}

-- How a dropped request ends.
abbrev pub EndsDropped : Problem → ℕ → Type 0
EndsDropped problem status =
    ((problem ≡ request_dropped) × (status ≡ 403))
    ⊎ (((problem ≡ gone_at_request) × (status ≡ 0))
        ⊎ ((e : Bytes) × (problem ≡ reading_request e) × (status ≡ 400)))

abbrev Stopped : Work → Type 0
Stopped w = (w.sent ≡ none) × EndsDropped w.ex.error w.reply.status

abbrev Waiting : Work → Type 0
Waiting w = (w.sent ≡ none) × (w.reply.status ≡ 0)

module _ (max : ℕ) (small : max + 1 < int64_limit) (i : Interceptor)
    (on : i.request_enabled ≡ true) where
  buffers_all :
      (c rules : Bool) (body : Option Stream) (req : Request) (w : Work)
      → c ≡ true
      → ((s : Stream) → body ≡ some s → length s.bytes ≤ max)
      → Waiting w
      → Ends Stopped (λ w' b. Waiting w' × (b.1 ≡ true)) (buffer_request max c rules body req w)
  unfolding buffer_request plain_error
  buffers_all false rules body req w e fits f = absurd (ground arith)
  buffers_all true rules none req w e fits f = (f, refl)
  buffers_all true rules (some s) req w e fits f = go (read_up_to max s) refl
    where
      go :
          (r : ReadResult)
          → read_up_to max s ≡ r
          → Ends Stopped
              (λ w' b. Waiting w' × (b.1 ≡ true))
              (buffer_request max true rules (some s) req w)
      go (read_failed e) q = rw (q, buffer_request, plain_error) (f.0, inr (inr (e, refl, refl)))
      go (read_whole b) q = rw (q, buffer_request) (f, refl)
      go (read_part b rest) q =
          let t = subst (ReadsTo max s) q (read_up_to-ReadsTo max s small) in
          let k = fits s refl in
          absurd (omega (arith, t.2, length-append b rest.bytes, ap length t.0, k))

  rules_wait :
      (re : Option RuleEngine) (b : Bool) (req : Request) (w : Work)
      → Waiting w
      → Ends Stopped (λ w' q. Waiting w') (rule_request re b req w)
  unfolding rule_request
  rules_wait none b req w f = f
  rules_wait (some re) b req w f = f

  drops_all :
      ((req : Request) → (i.hold_request req).1.verdict ≡ verdict_drop)
      → (gone b : Bool) (req : Request) (w : Work) → b ≡ true
      → Waiting w
      → Ends Stopped (λ w' q. ⊥) (pause_request (some i) gone b req w)
  unfolding pause_request plain_error
  drops_all d true b req w e f = rw (e, on, pause_request) (f.0, inr (inl (refl, f.1)))
  drops_all d false b req w e f =
      rw (e, on, d req, pause_request, plain_error) (f.0, inl (refl, refl))

-- If the user drops every request, none is sent: the client gets status 403, or 400 if its body cannot be
-- read, or nothing if it is gone; the exchange says which. Requests are intercepted, the body of this one is within the
-- limit on bodies, and the limit is below 2^63 - 1.
pub dropped_is_not_sent :
    (net : Net) (max : ℕ) (i : Interceptor) (re : Option RuleEngine) (up : Upstream)
    (client : Client) (r : Incoming)
    → max + 1 < int64_limit
    → i.request_enabled ≡ true
    → ((req : Request) → (i.hold_request req).1.verdict ≡ verdict_drop)
    → ((s : Stream) → client_body r ≡ some s → length s.bytes ≤ max)
    → ((forward net max (some i) re up client r).sent ≡ none)
      × EndsDropped
          (forward net max (some i) re up client r).saved.error
          (forward net max (some i) re up client r).reply.status
unfolding forward close to_server start
dropped_is_not_sent net max i re up client r small on d fits = last-Ends Stopped _ (
    bind-Ends Stopped (λ w s. ⊥) (λ w x. Stopped x) _ _
      (bind-Ends Stopped (λ w b. Waiting w × (b.1 ≡ true)) (λ w s. ⊥) _ _
        (buffers_all max small i on i.request_enabled (request_rules_on re) (client_body r)
          (first_request r) (start max r) on fits (refl, refl))
        (λ w1 b f1.
          bind-Ends Stopped (λ w q. Waiting w) (λ w s. ⊥) _ _
            (rules_wait max small i on re b.1 b.0 w1 f1.0)
            (λ w2 q f2.
              bind-Ends Stopped (λ w p. ⊥) (λ w s. ⊥) _ _
                (drops_all max small i on d client.gone_at_request b.1 q.0 w2 f1.1 f2)
                (λ w3 p f3. absurd f3))))
      (λ w s f. absurd f))
