-- ===== src/Proxy/Pipeline/Kept.antt =====
-- The way back from the server leaves what was saved of the request and what was sent.
use proxy_scope.Prelude.Text.{Bytes}
use proxy_scope.Prelude.{
  Option-cases, Bool-cases, inl, inr, [], false, ◌&&◌, none, ◌∷◌, ◌||◌, if◌then◌else◌, ◌⊎◌, List,
  some, Bool, true, Option, ◌≡◌, ℕ, refl,
}
use proxy_scope.Outbound.{BodyCapture}
use proxy_scope.Http.Message.{Request, Response, Verdict, verdict_drop, verdict_forward}
use proxy_scope.Outbound.Request.{
  Net, Stream, ReadResult, read_up_to, read_failed, read_whole, read_part,
}
use proxy_scope.Proxy.Exchange.{
  reading_response, response_dropped, Problem, Reply, Interceptor, RuleEngine, Client, Upstream,
  Sent, ServerResponse,
}
use proxy_scope.Proxy.Forward.{
  plain_reply, response_rules_on, response_on, Work, plain_error, not_holdable, body_allowed,
}
use proxy_scope.Proxy.Deliver.{
  copy_body, buffer_response, rule_response, pause_response, note_response, deliver_buffered,
  deliver_stream,
}
use proxy_scope.Proxy.Pipeline.{to_client}
use proxy_scope.Proxy.Pipeline.Stages.{Ends, bind-Ends}

module _ (Q : Bytes → Bytes → Option Sent → BodyCapture → Reply → Type 0)
    (plain : (m u : Bytes) (s : Option Sent) (c : BodyCapture) (r : Reply) (status : ℕ)
        (problem : Problem)
      → Q m u s c r
      → Q m u s c (plain_reply status problem r)) where
  -- A property of what the exchange says of the request, of what was sent and of what was captured.
  abbrev pub OfRequest : Work → Type 0
  OfRequest w = Q w.ex.method w.ex.url w.sent w.req_cap w.reply

  buffer_keeps :
      (max : ℕ) (intercept rules gone : Bool) (resp : ServerResponse) (w : Work)
      → OfRequest w
      → Ends OfRequest (λ w' b. OfRequest w') (buffer_response max intercept rules gone resp w)
  unfolding buffer_response plain_error
  buffer_keeps max intercept rules gone resp w f =
      go (Bool-cases (intercept || rules)) gone (Option-cases (not_holdable resp max))
    where
      Goal : Bool → Type 0
      Goal g = Ends OfRequest (λ w' b. OfRequest w') (buffer_response max intercept rules g resp w)

      reads :
          (intercept || rules) ≡ true
          → not_holdable resp max ≡ none
          → (r : ReadResult) → read_up_to max resp.body ≡ r
          → (g : Bool) → Goal g
      reads e h (read_failed x) q true = rw (e, h, q, buffer_response) f
      reads e h (read_failed x) q false =
          rw (e, h, q, buffer_response, plain_error)
            (plain w.ex.method w.ex.url w.sent w.req_cap w.reply 502 (reading_response x) f)
      reads e h (read_whole x) q g = rw (e, h, q, buffer_response) f
      reads e h (read_part x t) q g = rw (e, h, q, buffer_response) f

      go :
          ((intercept || rules) ≡ true) ⊎ ((intercept || rules) ≡ false)
          → (g : Bool)
          → (not_holdable resp max ≡ none) ⊎ ((x : Bytes) × (not_holdable resp max ≡ some x))
          → Goal g
      go (inr e) g o = rw (e, buffer_response) f
      go (inl e) g (inr (x, h)) = rw (e, h, buffer_response) f
      go (inl e) g (inl h) = reads e h (read_up_to max resp.body) refl g

  rule_keeps :
      (re : Option RuleEngine) (req : Request) (b : Bool) (resp : Response) (w : Work)
      → OfRequest w
      → Ends OfRequest (λ w' q. OfRequest w') (rule_response re req b resp w)
  unfolding rule_response
  rule_keeps none req b resp w f = f
  rule_keeps (some re) req b resp w f = f

  pause_keeps :
      (icpt : Option Interceptor) (gone b : Bool) (req : Request) (resp : Response) (w : Work)
      → OfRequest w
      → Ends OfRequest (λ w' r. OfRequest w') (pause_response icpt gone b req resp w)
  unfolding pause_response plain_error
  pause_keeps none gone b req resp w f = f
  pause_keeps (some i) gone b req resp w f = go (Bool-cases (b && i.response_enabled)) gone
    where
      Goal : Bool → Type 0
      Goal g = Ends OfRequest (λ w' r. OfRequest w') (pause_response (some i) g b req resp w)

      held :
          (b && i.response_enabled) ≡ true
          → (v : Verdict) → (i.hold_response req resp).1.verdict ≡ v
          → Goal false
      held e verdict_drop q =
          rw (e, q, pause_response, plain_error)
            (plain w.ex.method w.ex.url w.sent w.req_cap w.reply 403 response_dropped f)
      held e verdict_forward q = rw (e, q, pause_response) f

      go :
          ((b && i.response_enabled) ≡ true) ⊎ ((b && i.response_enabled) ≡ false)
          → (g : Bool) → Goal g
      go (inr e) g = rw (e, pause_response) f
      go (inl e) true = rw (e, pause_response) f
      go (inl e) false = held e (i.hold_response req resp).1.verdict refl

  note_keeps :
      (b : Bool) (fired : List Bytes) (resp : Response) (w : Work)
      → OfRequest w
      → OfRequest (note_response b fired resp w)
  note_keeps true fired resp w f = f
  note_keeps false [] resp w f = f
  note_keeps false (x ∷ fired) resp w f = f

  pub to_client_keeps :
      (net : Net) (max : ℕ) (icpt : Option Interceptor) (re : Option RuleEngine) (up : Upstream)
      (client : Client) (req : Request) (resp : ServerResponse) (w : Work)
      → ((b : Bool) (d : Response) (body : Stream) (w' : Work)
          → OfRequest w'
          → OfRequest (
              if b
              then deliver_buffered client req.method d w'
              else deliver_stream client up d body w'))
      → OfRequest w
      → Ends OfRequest (λ w' d. OfRequest d) (to_client net max icpt re up client req resp w)
  unfolding to_client
  to_client_keeps net max icpt re up client req resp w g f =
      bind-Ends OfRequest (λ w' b. OfRequest w') (λ w' d. OfRequest d) _ _
        (buffer_keeps max (response_on icpt) (response_rules_on re) client.gone_at_read resp _ f)
        (λ w1 b f1.
          bind-Ends OfRequest (λ w' b. OfRequest w') (λ w' d. OfRequest d) _ _
            (rule_keeps re req b.1 b.0 w1 f1)
            (λ w2 q f2.
              bind-Ends OfRequest (λ w' b. OfRequest w') (λ w' d. OfRequest d) _ _
                (pause_keeps icpt client.gone_at_response b.1 req q.0 w2 f2)
                (λ w3 d f3. g b.1 d b.2 (note_response b.1 q.1 d w3) (note_keeps b.1 q.1 d w3 f3))))

-- The delivery leaves what was saved of the request and what was sent.
module _ (Q : Bytes → Bytes → Option Sent → BodyCapture → Type 0) where
  abbrev BeforeReply : Work → Type 0
  BeforeReply w = Q w.ex.method w.ex.url w.sent w.req_cap

  deliver_buffered_keeps :
      (client : Client) (method : Bytes) (resp : Response) (w : Work)
      → BeforeReply w
      → BeforeReply (deliver_buffered client method resp w)
  unfolding deliver_buffered
  deliver_buffered_keeps client method resp w f =
      go (Bool-cases (body_allowed method resp.status_code)) (Option-cases (client.write_error 0))
    where
      go :
          (body_allowed method resp.status_code ≡ true)
            ⊎ (body_allowed method resp.status_code ≡ false)
          → (client.write_error 0 ≡ none) ⊎ ((x : Bytes) × (client.write_error 0 ≡ some x))
          → BeforeReply (deliver_buffered client method resp w)
      go (inr e) o = rw (e, deliver_buffered) f
      go (inl e) (inl h) = rw (e, h, deliver_buffered) f
      go (inl e) (inr (x, h)) = rw (e, h, deliver_buffered) f

  deliver_stream_keeps :
      (client : Client) (up : Upstream) (resp : Response) (body : Stream) (w : Work)
      → BeforeReply w
      → BeforeReply (deliver_stream client up resp body w)
  unfolding deliver_stream
  deliver_stream_keeps client up resp body w f = elim (Option-cases copied) [
    | inl e ↦ rw (e, deliver_stream) f
    | inr (x, e) ↦ rw (e, deliver_stream) f
  ]
    where
      copied : Option (Bool × Bytes)
      copied = (copy_body client.write_error 0 (up.reads body.bytes) body.fail w.resp_cap []).2

  pub deliver_keeps :
      (client : Client) (up : Upstream) (b : Bool) (method : Bytes) (resp : Response)
      (body : Stream) (w : Work)
      → BeforeReply w
      → BeforeReply (
          if b then deliver_buffered client method resp w else deliver_stream client up resp body w)
  deliver_keeps client up true method resp body w f = deliver_buffered_keeps client method resp w f
  deliver_keeps client up false method resp body w f = deliver_stream_keeps client up resp body w f
