-- ===== src/Proxy/Pipeline/Recorded.antt =====
-- What is saved of a request describes what was sent.
use mathlib.Core.Path.{subst}
use proxy_scope.Prelude.Text.{Bytes}
use proxy_scope.Http.Header.{Header}
use proxy_scope.Prelude.{
  if◌then◌else◌, ap, Bool-cases, ◌⊎◌, inr, inl, ◌&&◌, Option-cases, ◌||◌, [], true, ◌∷◌, sym, take,
  List, arith, false, ◌∙◌, Option, none, Bool, some, ◌≡◌, ℕ, refl,
}
use proxy_scope.Outbound.{BodyCapture, write, new_capture}
use proxy_scope.Outbound.Request.{
  refused, BuildError, TransportError, built, Built, OutRequest, read_part, read_whole, read_failed,
  read_up_to, ReadResult, Url, Stream, Net, sent_method, sent_header, build_request,
}
use proxy_scope.Http.Message.{verdict_forward, verdict_drop, Verdict, Request}
use proxy_scope.Proxy.Exchange.{
  bad_request, Exchange, Interceptor, RuleEngine, Upstream, Sent, Answer, failed, replied,
}
use proxy_scope.Proxy.Forward.{
  needs_transport, body_bytes, captured, body_length, has_body, out_body, Work, buffer_request,
  rule_request, pause_request, note_request, plain_error, record_edited_request,
}
use proxy_scope.Proxy.Deliver.{send_request, after_send}
use proxy_scope.Proxy.Pipeline.Stages.{Ends}

-- The rules leave the method and the URL.
abbrev pub KeepsTarget : Option RuleEngine → Type 0
KeepsTarget none = Unit
KeepsTarget (some re) =
    (req : Request) (b : Bool)
    → ((re.apply_request req b).0.method ≡ req.method) × ((re.apply_request req b).0.url ≡ req.url)

-- What the exchange is to show of the body: all of it if it was buffered, else what the server read.
abbrev pub shown_body : Upstream → Sent → Bytes
shown_body up x = if x.buffered then x.body else take (up.consumed x.out x.body) x.body

-- What was sent is what the exchange says.
abbrev pub Says : Upstream → ℕ → Bytes → Bytes → BodyCapture → Sent → Type 0
Says up max method url cap x =
    (x.out.method ≡ sent_method method)
    × (x.out.url ≡ url)
    × ((h : Header) × (x.out.header ≡ sent_header h))
    × (cap ≡ (write (shown_body up x) (new_capture max)).0)

abbrev pub RecordedAs : Upstream → ℕ → Bytes → Bytes → Option Sent → BodyCapture → Type 0
RecordedAs up max method url sent cap = (x : Sent) → sent ≡ some x → Says up max method url cap x

abbrev pub Recorded : Upstream → ℕ → Work → Type 0
Recorded up max w = RecordedAs up max w.ex.method w.ex.url w.sent w.req_cap

-- Nothing was sent or captured.
abbrev pub Untouched : ℕ → Work → Type 0
Untouched max w = (w.sent ≡ none) × (w.req_cap ≡ new_capture max)

abbrev pub About : ℕ → Request → Work → Type 0
About max req w = Untouched max w × (w.ex.method ≡ req.method) × (w.ex.url ≡ req.url)

-- The request that is built has the method, the URL and the header it is given.
build_request_fields :
    (net : Net) (method url : Bytes) (h : Header) (b : Bool) (n : Option ℕ) (out : OutRequest)
    → build_request net method url h b n ≡ built out
    → (out.method ≡ sent_method method) × (out.url ≡ url) × (out.header ≡ sent_header h)
unfolding build_request
build_request_fields net method url h b n out e = elim (Option-cases (net.parse_url url)) [
  | inl p ↦ absurd (ground arith)
  | inr (u, p) ↦ elim (Option-cases (net.new_request method url)) [
    | inl q ↦ absurd (ground arith)
    | inr (host, q) ↦ ground arith
  ]
]

captured-if :
    (b : Bool) (n : ℕ) (body : Bytes) → captured b n body ≡ (if b then body else take n body)
captured-if true n body = refl
captured-if false n body = refl

says_all :
    (up : Upstream) (max : ℕ) (w : Work) (x : Sent)
    → w.sent ≡ some x
    → Says up max w.ex.method w.ex.url w.req_cap x
    → Recorded up max w
says_all up max w x e f y q =
    let k : x ≡ y = ground arith in subst (Says up max w.ex.method w.ex.url w.req_cap) k f

module _ (up : Upstream) (max : ℕ) where
  pub buffers :
      (limit : ℕ) (intercept rules : Bool) (body : Option Stream) (req : Request) (w : Work)
      → About max req w
      → Ends
          (Recorded up max)
          (λ w' b. About max b.0 w')
          (buffer_request limit intercept rules body req w)
  unfolding buffer_request plain_error
  buffers limit intercept rules body req w f = go (Bool-cases (intercept || rules)) body
    where
      Goal : Option Stream → Type 0
      Goal b =
          Ends (Recorded up max) (λ w' a. About max a.0 w')
            (buffer_request limit intercept rules b req w)

      reads :
          (intercept || rules) ≡ true
          → (s : Stream) (r : ReadResult) → read_up_to limit s ≡ r
          → Goal (some s)
      reads e s (read_failed x) q =
          rw (e, q, buffer_request, plain_error) (λ x z. absurd (ground (arith, f)))
      reads e s (read_whole x) q = rw (e, q, buffer_request) f
      reads e s (read_part x t) q = rw (e, q, buffer_request) f

      go :
          ((intercept || rules) ≡ true) ⊎ ((intercept || rules) ≡ false)
          → (b : Option Stream) → Goal b
      go (inr e) b = rw (e, buffer_request) f
      go (inl e) none = rw (e, buffer_request) f
      go (inl e) (some s) = reads e s (read_up_to limit s) refl

  pub rules-About :
      (re : Option RuleEngine) (b : Bool) (req : Request) (w : Work)
      → KeepsTarget re
      → About max req w
      → Ends (Recorded up max) (λ w' q. About max q.0 w') (rule_request re b req w)
  unfolding rule_request
  rules-About none b req w k f = f
  rules-About (some re) b req w k f = (f.0, f.1 ∙ sym (k req b).0, f.2 ∙ sym (k req b).1)

  pub pauses :
      (icpt : Option Interceptor) (gone b : Bool) (req : Request) (w : Work)
      → About max req w
      → Ends
          (Recorded up max)
          (λ w' q. Untouched max w' × ((b ≡ false) → About max q w'))
          (pause_request icpt gone b req w)
  unfolding pause_request plain_error
  pauses none gone b req w f = (f.0, λ e. f)
  pauses (some i) gone b req w f = go (Bool-cases (b && i.request_enabled)) gone
    where
      Goal : Bool → Type 0
      Goal g =
          Ends (Recorded up max) (λ w' q. Untouched max w' × ((b ≡ false) → About max q w'))
            (pause_request (some i) g b req w)

      held :
          (b && i.request_enabled) ≡ true
          → (v : Verdict) → (i.hold_request req).1.verdict ≡ v
          → Goal false
      held e verdict_drop q =
          rw (e, q, pause_request, plain_error) (λ x z. absurd (ground (arith, f)))
      held e verdict_forward q = rw (e, q, pause_request) (f.0, λ z. absurd (ground arith))

      go :
          ((b && i.request_enabled) ≡ true) ⊎ ((b && i.request_enabled) ≡ false)
          → (g : Bool) → Goal g
      go (inr e) g = rw (e, pause_request) (f.0, λ z. f)
      go (inl e) true = rw (e, pause_request) (λ x z. absurd (ground (arith, f)))
      go (inl e) false = held e (i.hold_request req).1.verdict refl

  record_about :
      (net : Net) (sync : Bool) (req : Request) (ex : Exchange)
      → ((record_edited_request net req sync ex).method ≡ req.method)
        × ((record_edited_request net req sync ex).url ≡ req.url)
  unfolding record_edited_request
  record_about net sync req ex = elim (Option-cases (net.parse_url req.url)) [
    | inl e ↦ rw (e, record_edited_request) (refl, refl)
    | inr (u, e) ↦ rw (e, record_edited_request) (refl, refl)
  ]

  pub notes-About :
      (net : Net) (b : Bool) (fired : List Bytes) (req : Request) (w : Work)
      → Untouched max w
      → ((b ≡ false) → About max req w)
      → About max req (note_request net b fired req w)
  unfolding note_request record_edited_request
  notes-About net true fired req w u f = let r = record_about net true req w.ex in (u, r.0, r.1)
  notes-About net false [] req w u f = f refl
  notes-About net false (x ∷ fired) req w u f =
      let r = record_about net false req w.ex in (u, r.0, r.1)

  pub sends :
      (net : Net) (origin : Url) (b : Bool) (body : Option Stream) (n : Option ℕ) (req : Request)
      (w : Work)
      → About max req w
      → Ends
          (Recorded up max)
          (λ w' resp. Recorded up max w')
          (send_request net up origin b body n req w)
  unfolding send_request plain_error after_send
  sends net origin b body n req w f =
      go (build_request net req.method req.url req.header (has_body o) (body_length o)) refl
    where
      o : Option (Bytes × Option ℕ)
      o = out_body b body n req

      Goal : Type 0
      Goal =
          Ends (Recorded up max) (λ w' resp. Recorded up max w')
            (send_request net up origin b body n req w)

      Builds : Built → Type 0
      Builds r = build_request net req.method req.url req.header (has_body o) (body_length o) ≡ r

      sent_as : OutRequest → Sent
      sent_as out = record {
        out = out;
        body = body_bytes o;
        buffered = b;
        fresh = needs_transport net origin req w.ex.req_edited;
      }

      after : OutRequest → Work
      after out = record w {
        req_cap = (write (captured b (up.consumed out (body_bytes o)) (body_bytes o)) w.req_cap).0;
        sent = some (sent_as out);
      }

      says :
          (out : OutRequest)
          → Builds (built out)
          → Says up max (after out).ex.method (after out).ex.url (after out).req_cap (sent_as out)
      says out e =
          let k =
            build_request_fields net req.method req.url req.header (has_body o) (body_length o) out
              e in
          (
            k.0 ∙ ap sent_method (sym f.1),
            k.1 ∙ sym f.2,
            (req.header, k.2),
            ap (λ z. (write z w.req_cap).0)
                  (captured-if b (up.consumed out (body_bytes o)) (body_bytes o))
                ∙ ap (λ z. (write (shown_body up (sent_as out)) z).0) f.0.1,
          )

      records : (out : OutRequest) → Builds (built out) → Recorded up max (after out)
      records out e = says_all up max (after out) (sent_as out) refl (says out e)

      fails :
          (out : OutRequest) (t : TransportError)
          → Builds (built out)
          → (t.canceled ≡ true) ⊎ (t.canceled ≡ false)
          → Ends (Recorded up max) (λ w' resp. Recorded up max w') (after_send t (after out))
      fails out t e (inl z) = rw (z, after_send) (λ y g. records out e y g)
      fails out t e (inr z) = rw (z, after_send, plain_error) (λ y g. records out e y g)

      answered :
          (out : OutRequest)
          → Builds (built out)
          → (a : Answer) → up.round_trip out (body_bytes o) ≡ a
          → Goal
      answered out e (replied resp) q = rw (e, q, send_request) (records out e)
      answered out e (failed t) q = rw (e, q, send_request) (fails out t e (Bool-cases t.canceled))

      keeps :
          (x : BuildError) (c : Bool)
          → Recorded up max (
              plain_error 400
                (bad_request x)
                (if c then record w { req_cap = (write (body_bytes o) w.req_cap).0 } else w))
      keeps x true y g = absurd (ground (arith, f))
      keeps x false y g = absurd (ground (arith, f))

      go : (r : Built) → Builds r → Goal
      go (built out) e = answered out e (up.round_trip out (body_bytes o)) refl
      go (refused x) e = rw (e, send_request) (keeps x b)
