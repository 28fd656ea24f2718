-- ===== src/ClientIp.antt =====
-- internal/gateway/trusted_proxy.go: the address of the client behind trusted proxies. The addresses
-- and prefixes of net/netip and `net.SplitHostPort` are parameters.
pub mod Chain
mod Tests
use mathlib.Core.List.{reverse}
use gem_gate.Prelude.{
  ℕ, Bool, true, false, not, ◌&&◌, ◌||◌, Option, none, some, List, [], ◌∷◌, ◌++◌, ◌==◌,
  if◌then◌else◌,
}
use gem_gate.Text.{Text, codes, is_empty, trim_space, split}
use gem_gate.Header.{Header, header_values, header_get}

-- What the code uses of netip: `ParseAddr`, `Unmap`, `String`, `Contains`; and the host of
-- `SplitHostPort`.
pub record NetIp (A P : Type 0) : Type 0 where
  pub parse_addr : Text → Option A
  pub unmap : A → A
  pub addr_string : A → Text
  pub prefix_contains : P → A → Bool
  pub split_host : Text → Option Text

abbrev is_bracket : ℕ → Bool
is_bracket c = c == 0x5B || c == 0x5D

drop_brackets : Text → Text
drop_brackets [] = []
drop_brackets (c ∷ s) = let rest = drop_brackets s in if is_bracket c then rest else c ∷ s

-- `strings.Trim(value, "[]")`
unfoldable pub trim_brackets : Text → Text
unfolding drop_brackets
trim_brackets s = reverse (drop_brackets (reverse (drop_brackets s)))

module _ {A P : Type 0} (net : NetIp A P) where
  parse_unmapped : Text → Option A
  parse_unmapped s = elim (net.parse_addr s) [ none ↦ none | some addr ↦ some (net.unmap addr) ]

  abbrev host_of : Text → Text
  host_of s = elim (net.split_host s) [ none ↦ s | some host ↦ host ]

  unfoldable pub parse_remote_addr : Text → Option A
  unfolding parse_unmapped trim_brackets
  parse_remote_addr remote =
      let value = trim_space remote in
      if is_empty value then none else parse_unmapped (trim_brackets (host_of value))

  -- The inner loop over the parts of one value, and the outer over the values.
  parse_parts : List Text → Option (List A)
  unfolding parse_unmapped
  parse_parts [] = some []
  parse_parts (part ∷ parts) =
      let raw = trim_space part in
      let rest = parse_parts parts in
      if is_empty raw then none else elim (parse_unmapped raw) [
        | none ↦ none
        | some addr ↦ elim rest [ none ↦ none | some addrs ↦ some (addr ∷ addrs) ]
      ]

  unfoldable pub parse_forwarded_chain : List Text → Option (List A)
  unfolding parse_parts
  parse_forwarded_chain [] = some []
  parse_forwarded_chain (value ∷ values) =
      let rest = parse_forwarded_chain values in
      elim (parse_parts (split b',' value)) [
        | none ↦ none
        | some addrs ↦ elim rest [ none ↦ none | some more ↦ some (addrs ++ more) ]
      ]

  any_contains : List P → A → Bool
  any_contains [] addr = false
  any_contains (prefix ∷ prefixes) addr =
      net.prefix_contains prefix addr || any_contains prefixes addr

  unfoldable pub trusted_proxy : List P → A → Bool
  unfolding any_contains
  trusted_proxy prefixes addr = any_contains prefixes (net.unmap addr)

  -- The loop over the chain from its end: the address it stands at, and those before it, the nearest
  -- first. It stops at the front of the chain.
  unfoldable pub walk_back : List P → A → List A → A
  walk_back prefixes at [] = at
  walk_back prefixes at (before ∷ rest) =
      let further = walk_back prefixes before rest in
      if trusted_proxy prefixes at then further else at

  -- The last resort of a trusted peer: X-Real-IP if it is an address, and the peer.
  real_ip : Header → A → Text
  real_ip h peer =
      let raw = trim_space (header_get h (codes "X-Real-IP")) in
      if is_empty raw then net.addr_string peer else elim (net.parse_addr raw) [
        | none ↦ net.addr_string peer
        | some addr ↦ net.addr_string (net.unmap addr)
      ]

  from_chain : List P → Header → A → Option (List A) → Text
  unfolding real_ip
  from_chain prefixes h peer none = real_ip h peer
  from_chain prefixes h peer (some []) = real_ip h peer
  from_chain prefixes h peer (some (first ∷ forwarded)) =
      net.addr_string (walk_back prefixes peer (reverse (first ∷ forwarded)))

  from_peer : List P → Header → Option A → Text
  unfolding from_chain
  from_peer prefixes h none = []
  from_peer prefixes h (some peer) =
      if trusted_proxy prefixes peer
      then from_chain prefixes h peer
          (parse_forwarded_chain (header_values h (codes "X-Forwarded-For")))
      else net.addr_string peer

  unfoldable pub resolve_client_ip : List P → Text → Header → Text
  unfolding from_peer
  resolve_client_ip prefixes remote h = from_peer prefixes h (parse_remote_addr remote)
