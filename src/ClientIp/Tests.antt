-- ===== src/ClientIp/Tests.antt =====
-- A chain through two proxies, with addresses as texts and prefixes of texts.
use gem_gate.Prelude.{◌≡◌, refl, Option, none, some, List, [], ◌∷◌, if◌then◌else◌}
use gem_gate.Text.{Text, codes, text_eq, is_empty, has_prefix, trim_space, cut, cut_prefix, split}
use gem_gate.Header.{Header, header_values, stored, canonical_key}
use gem_gate.ClientIp.{
  NetIp, parse_remote_addr, parse_forwarded_chain, trusted_proxy, resolve_client_ip, trim_brackets,
}
use gem_gate.ClientIp.Chain.{resolve_client_ip-nearest}

abbrev host : Option (Text × Text) → Option Text
host none = none
host (some (h, port)) = some h

abbrev texts : NetIp Text Text
texts = record {
  parse_addr = λ s. if is_empty s then none else some s;
  unmap = λ a. a;
  addr_string = λ a. a;
  prefix_contains = λ p a. has_prefix a p;
  split_host = λ s. host (cut b':' s);
}

abbrev proxies : List Text
proxies = codes "10." ∷ []

abbrev request : Header
request = (codes "X-Forwarded-For", codes "6.6.6.6, 1.2.3.4, 10.0.0.2" ∷ []) ∷ []

-- The first address is the client's invention.
resolve_client_ip-nearest_example :
    resolve_client_ip texts proxies (codes "10.0.0.1:99") request ≡ codes "1.2.3.4"
unfolding parse_remote_addr parse_forwarded_chain trusted_proxy trim_brackets trim_space
    header_values stored canonical_key text_eq has_prefix cut cut_prefix split
resolve_client_ip-nearest_example =
    resolve_client_ip-nearest texts proxies (codes "10.0.0.1:99") request (codes "10.0.0.1")
      (codes "1.2.3.4") (codes "6.6.6.6" ∷ []) (codes "10.0.0.2" ∷ []) refl refl refl refl
      (refl, tt)
