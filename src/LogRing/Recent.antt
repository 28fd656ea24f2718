-- ===== src/LogRing/Recent.antt =====
-- internal/gateway/logring.go: the ring against the list of all that was logged.
use Prim.Native.Nat.{min}
use native.Mathlib.Nat.{zero-add, suc-add}
use gem_gate.Prelude.{
  ℕ, zero, suc, ◌+◌, ◌-◌, ◌≤◌, ◌<◌, ℤ, pos, negsuc, ◌≡◌, refl, sym, ap, ◌∙◌, inl, inr, List, [],
  ◌∷◌, ◌++◌, leb, ltb, ◌==◌, Bool-cases, length, drop, length-append, length-drop, arith,
}
use gem_gate.LogRing.{
  LogEntry, LogRing, new_log_ring, stamped, add, resize, snapshot, ring_limit, resize_to,
}

-- The last `n` entries of a list.
abbrev pub last_entries {ℓ} : {A : Type ℓ} → ℕ → List A → List A
last_entries n xs = drop (length xs - n) xs

module _ {ℓ} {A : Type ℓ} where
  drop-append : (n : ℕ) (xs ys : List A) → n ≤ length xs → drop n (xs ++ ys) ≡ drop n xs ++ ys
  drop-append zero xs ys h = refl
  drop-append (suc n) [] ys h = absurd (omega arith)
  drop-append (suc n) (x ∷ xs) ys h = drop-append n xs ys (omega arith)

  drop-nil : (n : ℕ) → drop {A = A} n [] ≡ []
  drop-nil zero = refl
  drop-nil (suc n) = refl

  drop-drop : (m n : ℕ) (xs : List A) → drop m (drop n xs) ≡ drop (n + m) xs
  drop-drop m zero xs = rw zero-add
  drop-drop m (suc n) [] = drop-nil m ∙ sym (drop-nil (suc n + m))
  drop-drop m (suc n) (x ∷ xs) = rw suc-add (drop-drop m n xs)

  -- Dropping from a suffix of a list gives a suffix of that list.
  last_entries-drop :
      (k n : ℕ) (xs ys : List A)
      → n ≤ length xs
      → ys ≡ last_entries n xs
      → k ≤ n
      → drop k ys ≡ last_entries (n - k) xs
  last_entries-drop k n xs ys h e le = rw e (drop-drop k (length xs - n) xs ∙ sum)
    where
      sum : drop (length xs - n + k) xs ≡ drop (length xs - (n - k)) xs
      sum = ap (λ i. drop i xs) {x = length xs - n + k} {y = length xs - (n - k)} (omega arith)

  last_entries-concat :
      (n : ℕ) (xs : List A) (x : A)
      → n ≤ length xs
      → last_entries n xs ++ x ∷ [] ≡ last_entries (n + 1) (xs ++ x ∷ [])
  last_entries-concat n xs x h =
      sym (drop-append (length xs - n) xs (x ∷ []) (omega arith))
      ∙ ap (λ i. drop i (xs ++ x ∷ [])) {x = length xs - n} {y = length (xs ++ x ∷ []) - (n + 1)}
          (omega (arith, length-append xs (x ∷ [])))

-- `ys` is the end of `xs`.
abbrev pub IsLast {ℓ} : {A : Type ℓ} → List A → List A → Type ℓ
IsLast ys xs = (length ys ≤ length xs) × (ys ≡ last_entries (length ys) xs)

module _ {ℓ} {A : Type ℓ} (xs ys : List A) (l : IsLast ys xs) where
  IsLast-drop : (k : ℕ) → k ≤ length ys → IsLast (drop k ys) xs
  IsLast-drop k h = (
    omega (arith, length-drop k ys, l.0),
    last_entries-drop k (length ys) xs ys l.0 l.1 h
        ∙ ap (λ i. last_entries i xs) (sym (length-drop k ys)),
  )

  IsLast-concat : (x : A) → IsLast (ys ++ x ∷ []) (xs ++ x ∷ [])
  IsLast-concat x = (
    omega (arith, length-append xs (x ∷ []), length-append ys (x ∷ []), l.0),
    ap (λ zs. zs ++ x ∷ []) l.1
        ∙ last_entries-concat (length ys) xs x l.0
        ∙ ap (λ i. last_entries i (xs ++ x ∷ [])) (sym (length-append ys (x ∷ []))),
  )

-- The ring holds the last entries of what was logged, no more than its limit.
pub record HoldsRecent (r : LogRing) (logged : List LogEntry) : Type 0 where
  pub limit_pos : 0 < r.limit
  pub fits : length r.entries ≤ r.limit
  pub recent : IsLast r.entries logged

pub add-HoldsRecent :
    (r : LogRing) (logged : List LogEntry) (e : LogEntry) (now : ℕ)
    → HoldsRecent r logged
    → HoldsRecent (add r e now) (logged ++ stamped e now ∷ [])
unfolding add
add-HoldsRecent r logged e now v = elim (Bool-cases (leb r.limit (length r.entries))) [
  | inl full ↦ rw full (record {
    limit_pos = v.limit_pos;
    fits = omega (
      arith,
      length-append (drop 1 r.entries) (stamped e now ∷ []),
      length-drop 1 r.entries,
      v.fits,
      v.limit_pos,
    );
    recent =
        IsLast-concat logged (drop 1 r.entries)
          (IsLast-drop logged r.entries v.recent 1 (ground (arith, v.limit_pos))) (stamped e now);
  })
  | inr room ↦ rw room (record {
    limit_pos = v.limit_pos;
    fits = ground (arith, length-append r.entries (stamped e now ∷ []));
    recent = IsLast-concat logged r.entries v.recent (stamped e now);
  })
]

ring_limit_pos : (z : ℤ) → 0 < ring_limit z
ring_limit_pos (pos zero) = omega arith
ring_limit_pos (pos (suc n)) = omega arith
ring_limit_pos (negsuc n) = omega arith

resize_to-HoldsRecent :
    (r : LogRing) (logged : List LogEntry) (limit : ℕ)
    → 0 < limit
    → HoldsRecent r logged
    → HoldsRecent (resize_to r limit) logged
unfolding resize_to
resize_to-HoldsRecent r logged limit p v = elim (Bool-cases (limit == r.limit)) [
  | inl same ↦ rw same v
  | inr other ↦ elim (Bool-cases (ltb limit (length r.entries))) [
    | inl over ↦
        rw (other, over)
          (record {
            limit_pos = p;
            fits = ground (arith, length-drop (length r.entries - limit) r.entries);
            recent = IsLast-drop logged r.entries v.recent (length r.entries - limit) (omega arith);
          })
    | inr room ↦ rw (other, room) (record { limit_pos = p; fits = ground arith; recent = v.recent })
  ]
]

pub resize-HoldsRecent :
    (r : LogRing) (logged : List LogEntry) (limit : ℤ)
    → HoldsRecent r logged
    → HoldsRecent (resize r limit) logged
unfolding resize
resize-HoldsRecent r logged limit v =
    resize_to-HoldsRecent r logged (ring_limit limit) (ring_limit_pos limit) v

new-HoldsRecent : (limit : ℤ) → HoldsRecent (new_log_ring limit) []
unfolding new_log_ring
new-HoldsRecent limit = record {
  limit_pos = ring_limit_pos limit;
  fits = omega arith;
  recent = (omega arith, refl);
}

-- A call of `Add`, with the time at which it runs, or of `Resize`.
pub data Call : Type 0 where
  adds : LogEntry → ℕ → Call
  resizes : ℤ → Call

pub run : LogRing → List Call → LogRing
run r [] = r
run r (adds e now ∷ calls) = run (add r e now) calls
run r (resizes limit ∷ calls) = run (resize r limit) calls

-- Everything that the calls log, oldest first, after what was logged before.
abbrev pub all_logged : List LogEntry → List Call → List LogEntry
all_logged logged [] = logged
all_logged logged (adds e now ∷ calls) = all_logged (logged ++ stamped e now ∷ []) calls
all_logged logged (resizes limit ∷ calls) = all_logged logged calls

run-HoldsRecent :
    (r : LogRing) (logged : List LogEntry) (calls : List Call)
    → HoldsRecent r logged
    → HoldsRecent (run r calls) (all_logged logged calls)
unfolding run
run-HoldsRecent r logged [] v = v
run-HoldsRecent r logged (adds e now ∷ calls) v =
    run-HoldsRecent (add r e now) (logged ++ stamped e now ∷ []) calls
      (add-HoldsRecent r logged e now v)
run-HoldsRecent r logged (resizes limit ∷ calls) v =
    run-HoldsRecent (resize r limit) logged calls (resize-HoldsRecent r logged limit v)

-- `Add` makes the ring one entry longer until the limit is reached, and then keeps its length;
-- `Resize` drops no entry that the new limit has room for.
pub add-resize-length :
    (r : LogRing) (logged : List LogEntry) (e : LogEntry) (now : ℕ) (limit : ℤ)
    → HoldsRecent r logged
    → (length (snapshot (add r e now)) ≡ min (length (snapshot r) + 1) r.limit)
      × (length (snapshot (resize r limit)) ≡ min (length (snapshot r)) (ring_limit limit))
unfolding snapshot add resize
add-resize-length r logged e now limit v = (
  grind (
    arith,
    length-append r.entries (stamped e now ∷ []),
    length-append (drop 1 r.entries) (stamped e now ∷ []),
    length-drop 1 r.entries,
    v.fits,
    v.limit_pos,
  ),
  grind (arith, length-drop (length r.entries - ring_limit limit) r.entries, v.fits),
)

-- The limit that a ring is given: 300 in place of one that is not positive.
abbrev pub allowance : ℤ → ℕ
allowance (pos zero) = 300
allowance (pos (suc n)) = suc n
allowance (negsuc n) = 300

-- How many entries there are to be after the calls: one more for each `Add`, up to the limit, and
-- after a `Resize` as many as the new limit has room for.
abbrev pub held : ℕ → ℕ → List Call → ℕ
held limit n [] = n
held limit n (adds e now ∷ calls) = held limit (min (n + 1) limit) calls
held limit n (resizes z ∷ calls) = held (allowance z) (min n (allowance z)) calls

ring_limit-allowance : (z : ℤ) → ring_limit z ≡ allowance z
ring_limit-allowance (pos zero) = refl
ring_limit-allowance (pos (suc n)) = refl
ring_limit-allowance (negsuc n) = refl

add-limit : (r : LogRing) (e : LogEntry) (now : ℕ) → (add r e now).limit ≡ r.limit
unfolding add
add-limit r e now = ground arith

resize-limit : (r : LogRing) (z : ℤ) → (resize r z).limit ≡ allowance z
unfolding resize
resize-limit r z = ground (arith, ring_limit-allowance z)

held_lem :
    (r : LogRing) (logged : List LogEntry) (calls : List Call)
    → HoldsRecent r logged
    → length (snapshot (run r calls)) ≡ held r.limit (length (snapshot r)) calls
unfolding run snapshot
held_lem r logged [] v = refl
held_lem r logged (adds e now ∷ calls) v =
    held_lem (add r e now) (logged ++ stamped e now ∷ []) calls (add-HoldsRecent r logged e now v)
    ∙ rw (add-limit r e now, (add-resize-length r logged e now (pos 0) v).0)
held_lem r logged (resizes z ∷ calls) v =
    held_lem (resize r z) logged calls (resize-HoldsRecent r logged z v)
    ∙ rw (resize-limit r z, (add-resize-length r logged any_entry 0 z v).1, ring_limit-allowance z)
  where
    any_entry : LogEntry
    any_entry = record {
      time = 0;
      level = [];
      client = [];
      client_ip = [];
      provider = [];
      method = [];
      path = [];
      status = 0;
      bytes = 0;
      duration = 0;
      request_id = [];
      message = [];
    }

-- After any calls of `Add` and `Resize` on a new ring a snapshot is the end of all that was logged,
-- in order, and no entry is lost that the limits have room for: it has one entry more for each `Add`
-- up to the limit, and loses entries to a `Resize` only where the new limit has no room for them.
pub snapshot_recent :
    (limit : ℤ) (calls : List Call)
    → let r = run (new_log_ring limit) calls in
      IsLast (snapshot r) (all_logged [] calls)
      × (length (snapshot r) ≡ held (allowance limit) 0 calls)
      × (length (snapshot r) ≤ r.limit)
unfolding snapshot
snapshot_recent limit calls =
    let v = run-HoldsRecent (new_log_ring limit) [] calls (new-HoldsRecent limit) in
    (
      v.recent,
      held_lem (new_log_ring limit) [] calls (new-HoldsRecent limit)
          ∙ (unfold new_log_ring in ap (λ l. held l 0 calls) (ring_limit-allowance limit)),
      v.fits,
    )
