-- ===== src/Route/Paths.antt =====
-- internal/gateway/proxy.go: the routes, and how two path parts are joined.
use mathlib.Core.List.{reverse, reverse-append, reverse-reverse}
use gem_gate.Prelude.{
  true, false, ◌≡◌, ◌≢◌, refl, sym, ap, ap₂, ◌∙◌, ◌⊎◌, inl, inr, none, some, Option-cases, List, [],
  ◌∷◌, ◌++◌, append_assoc, ok, err, All, drop, arith,
}
use gem_gate.Text.{Text, codes, cut, cut_prefix, has_prefix, has_suffix, trim_prefix, trim_suffix}
use gem_gate.Text.Split.{cut_parts, cut-append, cut_prefix-append, cut_prefix_parts}
use gem_gate.Table.{find_name}
use gem_gate.Route.{
  providers_prefix, unknown_provider, resolve_provider, prefixed_route, named_route,
  single_joining_slash,
}

module _ {P : Type 0} (default_provider : P) (providers : List (Text × P)) where
  -- A path `/providers/{name}/{rest}` goes to the provider of that name, if there is one, with the
  -- path `/{rest}`, and is refused as unknown if there is none.
  pub resolve_named :
      (name rest : Text)
      → name ≢ []
      → All (λ c. c ≢ b'/') name
      → resolve_provider default_provider providers (providers_prefix ++ (name ++ b'/' ∷ rest))
        ≡ elim (find_name providers name) [
          | none ↦ err (unknown_provider name)
          | some p ↦ ok (p, b'/' ∷ rest)
        ]
  unfolding resolve_provider
  resolve_named name rest n free =
      ap (prefixed_route default_provider providers _)
        (cut_prefix-append providers_prefix (name ++ b'/' ∷ rest))
      ∙ ap (named_route default_provider providers) (cut-append b'/' name rest free)
      ∙ named name n
    where
      named :
          (name : Text)
          → name ≢ []
          → named_route default_provider providers (some (name, rest))
            ≡ elim (find_name providers name) [
              | none ↦ err (unknown_provider name)
              | some p ↦ ok (p, b'/' ∷ rest)
            ]
      named [] n = absurd (n refl)
      named (c ∷ cs) n = ground arith

  -- Where a resolved path comes from: it has no provider prefix and goes unchanged to the default
  -- provider, or it names the provider that it goes to and the path at it.
  abbrev pub Resolved : Text → P × Text → Type 0
  Resolved path (p, target) =
      ((cut_prefix providers_prefix path ≡ none) × (p ≡ default_provider) × (target ≡ path))
      ⊎ ((name : Text) × (rest : Text) × (path ≡ providers_prefix ++ (name ++ b'/' ∷ rest))
          × (name ≢ [])
          × (find_name providers name ≡ some p)
          × (target ≡ b'/' ∷ rest))

  named_route_found :
      (name rest : Text) (r : P × Text)
      → named_route default_provider providers (some (name, rest)) ≡ ok r
      → (name ≢ []) × (find_name providers name ≡ some r.0) × (r.1 ≡ b'/' ∷ rest)
  unfolding named_route
  named_route_found [] rest r e = cc
  named_route_found (c ∷ cs) rest r e = ground arith

  -- Every path that is resolved is either outside `/providers/` and goes unchanged to the default
  -- provider, or is `/providers/{name}/{rest}` with a name that is not empty and goes to the provider
  -- of that name with `/{rest}`.
  pub resolve_provider-Resolved :
      (path : Text) (r : P × Text)
      → resolve_provider default_provider providers path ≡ ok r
      → Resolved path r
  unfolding resolve_provider
  resolve_provider-Resolved path r e = elim (Option-cases (cut_prefix providers_prefix path)) [
    | inl free ↦
        let same = sym (ap (prefixed_route default_provider providers path) free) ∙ e in
        inl (free, ground (arith, same), ground (arith, same))
    | inr (rest, prefixed) ↦ elim (Option-cases (cut b'/' rest)) [
      | inl whole ↦ cc (
        sym (ap (prefixed_route default_provider providers path) prefixed) ∙ e,
        ap (named_route default_provider providers) whole,
      )
      | inr ((name, target), parts) ↦
          let (n, found, t) = named_route_found name target r (
            sym (ap (named_route default_provider providers) parts)
            ∙ sym (ap (prefixed_route default_provider providers path) prefixed)
            ∙ e) in
          inr (
            name,
            target,
            cut_prefix_parts providers_prefix path rest prefixed
                ∙ ap (λ s. providers_prefix ++ s) (cut_parts b'/' rest name target parts),
            n,
            found,
            t,
          )
    ]
  ]

abbrev slash : Text
slash = codes "/"

prefix_cases :
    (b : Text)
    → ((has_prefix b slash ≡ true) × (b ≡ b'/' ∷ trim_prefix b slash))
      ⊎ ((has_prefix b slash ≡ false) × (trim_prefix b slash ≡ b))
unfolding has_prefix trim_prefix
prefix_cases b = elim (Option-cases (cut_prefix slash b)) [
  | inl e ↦ inr (rw e, rw e)
  | inr (rest, e) ↦ inl (rw e, rw e (cut_prefix_parts slash b rest e))
]

suffix_cases :
    (a : Text)
    → ((has_suffix a slash ≡ true) × (a ≡ trim_suffix a slash ++ slash))
      ⊎ ((has_suffix a slash ≡ false) × (trim_suffix a slash ≡ a))
unfolding has_suffix trim_suffix
suffix_cases a = elim (prefix_cases (reverse a)) [
  | inl (yes', e) ↦ inl (
    yes',
    sym (reverse-reverse a) ∙ ap reverse e ∙ reverse-append slash (trim_prefix (reverse a) slash),
  )
  | inr (no', e) ↦ inr (no', ap reverse e ∙ reverse-reverse a)
]

-- Two paths are joined by exactly one slash, whether the first ends with one and the second begins
-- with one or not.
pub single_joining_slash_parts :
    (a b : Text) → single_joining_slash a b ≡ trim_suffix a slash ++ b'/' ∷ trim_prefix b slash
unfolding single_joining_slash
single_joining_slash_parts a b = elim (suffix_cases a) [
  | inl (ended, e) ↦ elim (prefix_cases b) [
    | inl (begun, f) ↦
        rw (ended, begun)
          (ap₂ ◌++◌ e (ap (drop 1) f)
            ∙ append_assoc (trim_suffix a slash) slash (trim_prefix b slash))
    | inr (bare, f) ↦
        rw (ended, bare)
          (ap₂ ◌++◌ e (sym f) ∙ append_assoc (trim_suffix a slash) slash (trim_prefix b slash))
  ]
  | inr (open', e) ↦ elim (prefix_cases b) [
    | inl (begun, f) ↦ rw (open', begun) (ap₂ ◌++◌ (sym e) f)
    | inr (bare, f) ↦ rw (open', bare) (ap₂ (λ s t. s ++ b'/' ∷ t) (sym e) (sym f))
  ]
]
