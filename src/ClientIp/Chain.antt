-- ===== src/ClientIp/Chain.antt =====
-- internal/gateway/trusted_proxy.go: which address of the forwarded chain is the client's.
use mathlib.Core.List.{reverse, reverse-append, reverse-cons}
use gem_gate.Prelude.{
  subst, true, false, ◌≡◌, refl, sym, ap, ◌∙◌, some, List, [], ◌∷◌, ◌++◌, All, All-append,
  append_assoc,
}
use gem_gate.Text.{Text, codes}
use gem_gate.Header.{Header, header_values}
use gem_gate.ClientIp.{
  NetIp, parse_remote_addr, parse_forwarded_chain, trusted_proxy, walk_back, from_chain, from_peer,
  resolve_client_ip,
}

module _ {A P : Type 0} (net : NetIp A P) (prefixes : List P) where
  abbrev pub Trusted : A → Type 0
  Trusted addr = trusted_proxy net prefixes addr ≡ true

  walk_back-Trusted :
      (peer client : A) (near far : List A)
      → Trusted peer
      → All Trusted near
      → trusted_proxy net prefixes client ≡ false
      → walk_back net prefixes peer (near ++ client ∷ far) ≡ client
  unfolding walk_back
  walk_back-Trusted peer client [] [] t all u = rw t refl
  walk_back-Trusted peer client [] (f ∷ far) t all u = rw (t, u) refl
  walk_back-Trusted peer client (n ∷ near) far t all u =
      rw t (walk_back-Trusted n client near far all.0 all.1 u)

  reverse-All : (addrs : List A) → All Trusted addrs → All Trusted (reverse addrs)
  reverse-All [] all = all
  reverse-All (a ∷ addrs) all =
      subst (All Trusted) (sym (reverse-cons a addrs))
        (All-append Trusted (reverse addrs) (a ∷ []) (reverse-All addrs all.1) (all.0, tt))

  reverse_middle :
      (client : A) (before after : List A)
      → reverse (before ++ client ∷ after) ≡ reverse after ++ client ∷ reverse before
  reverse_middle client before after =
      reverse-append before (client ∷ after)
      ∙ ap (λ r. r ++ reverse before) (reverse-cons client after)
      ∙ append_assoc (reverse after) (client ∷ []) (reverse before)

  from_chain_walked :
      (h : Header) (peer client : A) (before after : List A)
      → from_chain net prefixes h peer (some (before ++ client ∷ after))
        ≡ net.addr_string (walk_back net prefixes peer (reverse (before ++ client ∷ after)))
  unfolding from_chain
  from_chain_walked h peer client [] after = refl
  from_chain_walked h peer client (b ∷ before) after = refl

  -- Behind a trusted peer with a valid X-Forwarded-For chain the client's address is the last of the
  -- chain that no trusted proxy has, whatever stands before it: a client cannot choose its address by
  -- the X-Forwarded-For that it sends.
  pub resolve_client_ip-nearest :
      (remote : Text) (h : Header) (peer client : A) (before after : List A)
      → parse_remote_addr net remote ≡ some peer
      → Trusted peer
      → parse_forwarded_chain net (header_values h (codes "X-Forwarded-For"))
        ≡ some (before ++ client ∷ after)
      → trusted_proxy net prefixes client ≡ false
      → All Trusted after
      → resolve_client_ip net prefixes remote h ≡ net.addr_string client
  unfolding resolve_client_ip from_peer
  resolve_client_ip-nearest remote h peer client before after parsed t chain u all =
      ap (from_peer net prefixes h) parsed
      ∙ (rw (t, chain) refl)
      ∙ from_chain_walked h peer client before after
      ∙ ap (λ chain. net.addr_string (walk_back net prefixes peer chain))
          (reverse_middle client before after)
      ∙ ap net.addr_string (
          walk_back-Trusted peer client (reverse after) (reverse before) t (reverse-All after all)
            u)
