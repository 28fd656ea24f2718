-- ===== src/Route/Bodies.antt =====
-- internal/gateway/proxy.go: `prepareBody` under a positive limit.
use gem_gate.Prelude.{
  ℕ, zero, suc, ◌+◌, ◌≤◌, ◌<◌, true, false, ◌≡◌, ◌↔◌, refl, ap, ◌⊎◌, Option, some, ℤ, pos, negsuc,
  ◌^◌, List, [], ◌∷◌, length, ok, err, arith,
}
use gem_gate.Route.{Stream, body_too_large, take, read_limited, exceeds, prepare_body}

length-take : (n : ℕ) (bs : List ℕ) → n ≤ length bs → length (take n bs) ≡ n
unfolding take
length-take zero bs h = refl
length-take (suc n) [] h = absurd (omega arith)
length-take (suc n) (b ∷ bs) h = ap suc (length-take n bs (omega arith))

-- A body that is accepted under a positive limit below 2^63 - 1 is sent whole and unchanged, with its
-- exact length, which the limit allows, and was read without a failure.
pub prepare_body_exact :
    (n : ℕ) (s : Stream) (content_length : ℤ) (body : Option Stream) (sent : ℤ)
    → suc n + 1 < 2 ^ 63
    → prepare_body (pos (suc n)) (some s) content_length ≡ ok (body, sent)
    → (body ≡ some (record { content = s.content; fails = false }))
      × (sent ≡ pos (length s.content))
      × (length s.content ≤ suc n)
      × (s.fails ≡ false)
unfolding prepare_body read_limited
prepare_body_exact n s content_length body sent below h =
    ground (arith, length-take (suc n + 1) s.content)

-- Under a positive limit below 2^63 - 1 a body is refused as too large exactly if its declared length
-- exceeds the limit or it delivers more bytes than the limit.
pub prepare_body_too_large :
    (n : ℕ) (s : Stream) (content_length : ℤ)
    → suc n + 1 < 2 ^ 63
    → (prepare_body (pos (suc n)) (some s) content_length ≡ err body_too_large)
      ↔ ((exceeds content_length (suc n) ≡ true) ⊎ (suc n < length s.content))
unfolding prepare_body read_limited
prepare_body_too_large n s content_length below = ground (arith, length-take (suc n + 1) s.content)

-- Under the largest limit that `parseBytes` accepts, 2^63 - 1, every body of unknown length is taken
-- for an empty one.
pub prepare_body_largest_limit :
    (n : ℕ) (s : Stream)
    → suc n + 1 ≡ 2 ^ 63
    → prepare_body (pos (suc n)) (some s) (negsuc 0)
      ≡ ok (some (record { content = []; fails = false }), pos 0)
unfolding prepare_body read_limited take
prepare_body_largest_limit n s h = ground arith
