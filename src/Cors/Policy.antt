-- ===== src/Cors/Policy.antt =====
-- internal/gateway/cors.go: `newCORSPolicy` against a reading of the configuration's lists.
use gem_gate.Prelude.{
  Bool, true, false, not, ◌&&◌, ◌||◌, ◌≡◌, refl, inl, inr, ℤ, List, [], ◌∷◌, map, Bool-cases, arith,
  ap,
}
use gem_gate.Text.{Text, text_eq, is_empty, contains, trim_space}
use gem_gate.Text.Equality.{text_eq_iff}
use gem_gate.Cors.{
  CorsConfig, new_cors_policy, kept_names, any_star, named_origins, cors_method, method_allowed,
  star,
}

told_apart : (p : Text → Bool) (s t : Text) → p s ≡ true → p t ≡ false → text_eq s t ≡ false
told_apart p s t holds fails = elim (Bool-cases (text_eq s t)) [
  | inl same ↦ cc (holds, fails, ap p ((text_eq_iff s t).0 same))
  | inr other ↦ other
]

any_star-map : (origins : List Text) → any_star origins ≡ contains (map trim_space origins) star
unfolding any_star contains
any_star-map [] = refl
any_star-map (o ∷ os) = rw (any_star-map os) refl

contains-named_origins :
    (origins : List Text) (origin : Text)
    → is_empty origin ≡ false
    → text_eq origin star ≡ false
    → contains (named_origins origins) origin ≡ contains (map trim_space origins) origin
unfolding named_origins contains
contains-named_origins [] origin named plain = refl
contains-named_origins (o ∷ os) origin named plain =
    elim (Bool-cases (text_eq (trim_space o) star)) [
      | inl wild ↦
          rw (wild, told_apart (λ s. text_eq s star) (trim_space o) origin wild plain)
            (contains-named_origins os origin named plain)
      | inr other ↦ elim (Bool-cases (is_empty (trim_space o))) [
        | inl blank ↦
            rw (other, blank, told_apart is_empty (trim_space o) origin blank named)
              (contains-named_origins os origin named plain)
        | inr full ↦ rw (other, full, contains-named_origins os origin named plain) refl
      ]
    ]

-- `*` is never among the named origins.
contains-star : (origins : List Text) → contains (named_origins origins) star ≡ false
unfolding named_origins contains
contains-star [] = refl
contains-star (o ∷ os) = elim (Bool-cases (text_eq (trim_space o) star)) [
  | inl wild ↦ rw wild (contains-star os)
  | inr other ↦ elim (Bool-cases (is_empty (trim_space o))) [
    | inl blank ↦ rw (other, blank) (contains-star os)
    | inr full ↦ rw (other, full) (rw other (contains-star os))
  ]
]

absorb : (a : Bool) {b : Bool} → b ≡ false → (a || b) ≡ (a || a)
absorb a e = ground (arith)

-- For an origin that is not empty: the policy allows it, by its wildcard or its list, exactly if
-- the configuration lists it or `*`, both up to the space around them.
pub new_cors_policy-origins :
    (cfg : CorsConfig) (max_age : ℤ) (origin : Text)
    → is_empty origin ≡ false
    → ((new_cors_policy cfg max_age).wildcard_origin
        || contains (new_cors_policy cfg max_age).allowed_origins origin)
      ≡ (contains (map trim_space cfg.allowed_origins) star
          || contains (map trim_space cfg.allowed_origins) origin)
unfolding new_cors_policy
new_cors_policy-origins cfg max_age origin named = elim (Bool-cases (text_eq origin star)) [
  | inl wild ↦
      rw (any_star-map cfg.allowed_origins, (text_eq_iff origin star).0 wild)
        (absorb _ (contains-star cfg.allowed_origins))
  | inr plain ↦
      rw
        (
          any_star-map cfg.allowed_origins,
          contains-named_origins cfg.allowed_origins origin named plain,
        )
        refl
]

contains-kept_names :
    (normalize : Text → Text) (names : List Text) (name : Text)
    → contains (kept_names normalize names) name
      ≡ (not (is_empty name) && contains (map normalize names) name)
unfolding kept_names contains
contains-kept_names normalize [] name = ground (arith)
contains-kept_names normalize (n ∷ ns) name = elim (Bool-cases (is_empty (normalize n))) [
  | inl blank ↦ elim (Bool-cases (is_empty name)) [
    | inl e ↦ rw (blank, contains-kept_names normalize ns name, e) refl
    | inr named ↦
        rw
          (
            blank,
            contains-kept_names normalize ns name,
            told_apart is_empty (normalize n) name blank named,
          )
          refl
  ]
  | inr full ↦ elim (Bool-cases (is_empty name)) [
    | inl e ↦
        rw
          (
            full,
            contains-kept_names normalize ns name,
            e,
            told_apart (λ s. not (is_empty s)) (normalize n) name (ap not full) (ap not e),
          )
          refl
    | inr named ↦ rw (full, contains-kept_names normalize ns name, named) refl
  ]
]

-- The policy allows a method exactly if it is not empty and the configuration lists it, both in
-- upper case and without the space around them.
pub new_cors_policy-methods :
    (cfg : CorsConfig) (max_age : ℤ) (method : Text)
    → method_allowed (new_cors_policy cfg max_age) method ≡ (
        not (is_empty (cors_method method))
        && contains (map cors_method cfg.allowed_methods) (cors_method method))
unfolding new_cors_policy method_allowed
new_cors_policy-methods cfg max_age method =
    contains-kept_names cors_method cfg.allowed_methods (cors_method method)
