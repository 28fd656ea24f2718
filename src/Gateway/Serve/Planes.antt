-- ===== src/Gateway/Serve/Planes.antt =====
-- internal/gateway/operations_listener.go and gateway.go: the operations plane and its pages.
use gem_gate.Prelude.{ℕ, Bool, true, ◌||◌, ◌&&◌, ◌≡◌, none, List, arith}
use gem_gate.Text.{Text, codes, text_eq}
use gem_gate.Header.{Header, header_set}
use gem_gate.Access.{operations_authorized}
use gem_gate.RateLimit.{RateLimitBackend}
use gem_gate.Gateway.{Gateway}
use gem_gate.Gateway.World.{World}
use gem_gate.Gateway.Streams.{IncomingRequest}
use gem_gate.Gateway.Replies.{
  Call, Served, Content, health, readiness, counters, settings, Texts, deny, operations,
  operations_page, health_reply, readiness_reply,
}
use gem_gate.Gateway.Serve.{call_of, serve_operations}

-- Who may see what is shown: a caller with the right token everything, and where the health is public
-- anyone the health under its path and the readiness under its own.
abbrev pub may_see : {V : Type 0} → Bool → Bool → Text → Content V → Bool
may_see authorized public path (health _) = authorized || public && text_eq path (codes "/_healthz")
may_see authorized public path (readiness _) =
    authorized || public && text_eq path (codes "/_readyz")
may_see authorized public path (counters _ _) = authorized
may_see authorized public path (settings _) = authorized
may_see authorized public path _ = true

module _ {S E A P T V : Type 0} (world : World A P) (texts : Texts E T V)
    (backend : RateLimitBackend S E) (digest : Text → List ℕ) where
  -- What a request leaves that changes counters and the log alone.
  pub record Local (g : Gateway S T P) (s : Served S T P V) : Type 0 where
    pub nothing_sent : s.sent ≡ none
    pub same_runtime : s.gateway.runtime ≡ g.runtime
    pub same_breakers : s.gateway.breakers ≡ g.breakers
    pub same_rate_limits : s.gateway.rate_limits ≡ g.rate_limits

  operations-Local :
      (g : Gateway S T P) (w : Header) (c : Call) → Local g (operations world texts g w c)
  unfolding operations operations_page health_reply readiness_reply deny
  operations-Local g w c = record {
    nothing_sent = ground arith;
    same_runtime = ground arith;
    same_breakers = ground arith;
    same_rate_limits = ground arith;
  }

  -- The operations listener sends nothing to a provider and changes no breaker, no rate limit and no
  -- configuration, whatever it is asked.
  pub serve_operations-Local :
      (g : Gateway S T P) (h : Header) (r : IncomingRequest)
      → Local g (serve_operations world texts backend digest g h r)
  unfolding serve_operations health_reply readiness_reply
  serve_operations-Local g h r =
      let c = call_of world texts backend digest g r in
      let o = operations-Local g (header_set h (codes "X-Request-ID") c.id) c in
      record {
        nothing_sent = ground (arith, o.nothing_sent);
        same_runtime = ground (arith, o.same_runtime);
        same_breakers = ground (arith, o.same_breakers);
        same_rate_limits = ground (arith, o.same_rate_limits);
      }

  -- Whatever the operations listener is asked, it shows the counters and the settings only to a caller
  -- with the right token, and the health and the readiness only to such a caller or, where the health
  -- is public, to anyone who asks under the path of that page.
  pub page_authorized :
      (g : Gateway S T P) (h : Header) (r : IncomingRequest)
      → may_see
          (operations_authorized g.runtime.access r.headers)
          g.runtime.cfg.config.server.public_health
          r.path
          (serve_operations world texts backend digest g h r).reply.content
        ≡ true
  unfolding serve_operations operations operations_page health_reply readiness_reply
  page_authorized g h r = ground arith
