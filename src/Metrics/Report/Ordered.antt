-- ===== src/Metrics/Report/Ordered.antt =====
-- `providerSnapshots` against the order in which Go walks a map, which differs from call to call.
use mathlib.Core.List.{Permᴰ}
use gem_gate.Prelude.{◌≡◌, refl, ap, ap₂, ◌∙◌, none, some, List, [], ◌∷◌}
use gem_gate.Text.{Text}
use gem_gate.Sorting.{sort, text_le}
use gem_gate.Sorting.Order.{sort-perm, text_order}
use gem_gate.Metrics.{ProviderMetrics, find_provider}
use gem_gate.Metrics.Report.{names_of, snapshot_of, snapshots_in, provider_snapshots}

snapshots_in-agree :
    (ps qs : List (Text × ProviderMetrics)) (names : List Text)
    → ((name : Text) → find_provider ps name ≡ find_provider qs name)
    → snapshots_in ps names ≡ snapshots_in qs names
unfolding snapshots_in
snapshots_in-agree ps qs [] same = refl
snapshots_in-agree ps qs (name ∷ names) same =
    ap₂ (λ found rest. elim found [ none ↦ rest | some p ↦ snapshot_of name p ∷ rest ]) (same name)
      (snapshots_in-agree ps qs names same)

-- The snapshots of the providers do not depend on the order in which the map is walked: two lists of
-- entries with the same names, in any order, that agree on what stands under each name give the same
-- snapshots in the same order.
pub provider_snapshots-perm :
    (ps qs : List (Text × ProviderMetrics))
    → ((name : Text) → find_provider ps name ≡ find_provider qs name)
    → Permᴰ (names_of ps) (names_of qs)
    → provider_snapshots ps ≡ provider_snapshots qs
unfolding provider_snapshots
provider_snapshots-perm ps qs same p =
    snapshots_in-agree ps qs (sort text_le (names_of ps)) same
    ∙ ap (snapshots_in qs) (sort-perm text_le text_order p)
