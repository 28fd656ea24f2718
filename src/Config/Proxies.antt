-- ===== src/Config/Proxies.antt =====
-- internal/config/config.go: `parseTrustedProxies`. The prefixes of net/netip are parameters.
use gem_gate.Prelude.{
  ℕ, ◌-◌, Bool, false, ◌||◌, Option, none, some, List, [], ◌∷◌, ◌++◌, if◌then◌else◌, Result, ok,
  err,
}
use gem_gate.Text.{Text, codes, is_empty, has_infix, trim_space}

-- `ParsePrefix`, `Masked`, `PrefixFrom`, `Addr`, `Bits` and equality of prefixes; `ParseAddr`, `Unmap`,
-- `BitLen` and `Is4In6` of addresses. A parsed prefix has no negative number of bits.
pub record Prefixes (A P : Type 0) : Type 0 where
  pub parse_prefix : Text → Option P
  pub masked : P → P
  pub prefix_from : A → ℕ → P
  pub prefix_addr : P → A
  pub prefix_bits : P → ℕ
  pub prefix_eq : P → P → Bool
  pub parse_addr : Text → Option A
  pub unmap : A → A
  pub bit_len : A → ℕ
  pub is_4_in_6 : A → Bool

pub data ProxyError : Type 0 where
  empty_entry : ProxyError
  invalid_cidr invalid_ip : Text → ProxyError

module _ {A P : Type 0} (net : Prefixes A P) where
  -- The prefix of an entry, before IPv4 addresses inside IPv6 are unmapped.
  entry_prefix : Text → Result ProxyError P
  entry_prefix raw =
      if has_infix raw (codes "/")
      then elim (net.parse_prefix raw) [
        | none ↦ err (invalid_cidr raw)
        | some parsed ↦ ok (net.masked parsed)
      ]
      else elim (net.parse_addr raw) [
        | none ↦ err (invalid_ip raw)
        | some mapped ↦ let addr = net.unmap mapped in ok (net.prefix_from addr (net.bit_len addr))
      ]

  unmapped_prefix : P → P
  unmapped_prefix prefix =
      if net.is_4_in_6 (net.prefix_addr prefix)
      then net.masked
          (net.prefix_from (net.unmap (net.prefix_addr prefix)) (net.prefix_bits prefix - 96))
      else prefix

  unfoldable pub seen_prefix : List P → P → Bool
  seen_prefix [] prefix = false
  seen_prefix (s ∷ seen) prefix = net.prefix_eq s prefix || seen_prefix seen prefix

  -- The loop, over the prefixes put out so far.
  unfoldable pub parse_entries : List P → List Text → Result ProxyError (List P)
  unfolding entry_prefix unmapped_prefix seen_prefix
  parse_entries out [] = ok out
  parse_entries out (value ∷ values) =
      let raw = trim_space value in
      if is_empty raw then err empty_entry else elim (entry_prefix raw) [
        | err e ↦ err e
        | ok parsed ↦
            let prefix = unmapped_prefix parsed in
            parse_entries (if seen_prefix out prefix then out else out ++ prefix ∷ []) values
      ]

  unfoldable pub parse_trusted_proxies : List Text → Result ProxyError (List P)
  unfolding parse_entries
  parse_trusted_proxies values = parse_entries [] values
