-- ===== src/Routing/Replication/Precomputed/Rings.antt =====
-- A ring of what was computed for each token of another ring, against that ring.
use mathlib.Core.Path.{ap, subst, ◌∙◌}
use mathlib.Core.List.{append-nil}
use scylla_rust_driver.Prelude.{◌≡◌, refl, sym, true, List, [], ◌∷◌, ◌++◌, All, All-imp, arith}
use scylla_rust_driver.Prelude.Int.{ℤ, ◌≤ℤ◌, ◌<ℤ◌, leb_ℤ}
use scylla_rust_driver.Routing.Sharding.{Token}
use scylla_rust_driver.Routing.Ring.{
  Search, TokenRing, tokens_of, insert_sorted, sort_by, ring_range_full,
}
use scylla_rust_driver.Routing.Ring.Sorting.{Increases, IsSorted}
use scylla_rust_driver.Routing.Ring.Walks.{IsBinarySearch, Rotation, turn_of, search_place}

module _ {A : Type 0} where
  insert_below :
      (e : Token × A) (ring : List (Token × A))
      → All (λ (m : Token × A). e.0.value ≤ℤ m.0.value) ring
      → insert_sorted e ring ≡ e ∷ ring
  unfolding insert_sorted
  insert_below e [] h = refl
  insert_below e (m ∷ ring) (le, h) =
      let below : leb_ℤ e.0.value m.0.value ≡ true = ground (arith, le) in simp below

  -- A ring in order stays as it is.
  pub sort_by_sorted : (ring : List (Token × A)) → IsSorted ring → sort_by ring ≡ ring
  unfolding sort_by
  sort_by_sorted [] h = refl
  sort_by_sorted (e ∷ ring) (below, h) =
      ap (insert_sorted e) (sort_by_sorted ring h) ∙ insert_below e ring below

  abbrev pub Below : ℤ → List (Token × A) → Type 0
  Below t ring = All (λ x. x <ℤ t) (tokens_of ring)

  abbrev pub Above : ℤ → List (Token × A) → Type 0
  Above t ring = All (λ x. t ≤ℤ x) (tokens_of ring)

  -- A ring is split at a token in one way.
  unique_split :
      (t : ℤ) (before after before' after' : List (Token × A))
      → before ++ after ≡ before' ++ after'
      → Below t before
      → Above t after
      → Below t before'
      → Above t after'
      → (before ≡ before') × (after ≡ after')
  unique_split t [] after [] after' e b a b' a' = (refl, e)
  unique_split t [] after (y ∷ before') after' e b a b' a' =
      absurd (omega (arith, (subst (Above t) e a).0, b'.0))
  unique_split t (x ∷ before) after [] after' e b a b' a' =
      absurd (omega (arith, (subst (Above t) (sym e) a').0, b.0))
  unique_split t (x ∷ before) after (y ∷ before') after' e b a b' a' =
      let tails : before ++ after ≡ before' ++ after' = cc in
      let (p, q) = unique_split t before after before' after' tails b.1 a b'.1 a' in
      ((let heads : x ≡ y = cc in cc), q)

  All-here :
      (P : ℤ → Type 0) (before : List (Token × A)) (x : Token × A) (after : List (Token × A))
      → All P (tokens_of (before ++ x ∷ after))
      → P x.0.value
  All-here P [] x after h = h.0
  All-here P (y ∷ before) x after h = All-here P before x after h.1

  -- Of a ring in strict order, the members before one are below it, and those from it on are not.
  split_at :
      (before : List (Token × A)) (x : Token × A) (after : List (Token × A))
      → Increases ◌<ℤ◌ (tokens_of (before ++ x ∷ after))
      → Below x.0.value before × Above x.0.value (x ∷ after)
  split_at [] x after (above, h) =
      (tt, (omega arith, All-imp (λ y k. omega (arith, k)) (tokens_of after) above))
  split_at (y ∷ before) x after (above, h) =
      let (b, a) = split_at before x after h in
      ((All-here (λ z. y.0.value <ℤ z) before x after above, b), a)

  abbrev pub IsStrict : List (Token × A) → Type 0
  IsStrict ring = Increases ◌<ℤ◌ (tokens_of ring)

  pub strict_turn :
      (s : Search)
      → IsBinarySearch s
      → (ring : TokenRing A) (token : Token) → IsStrict ring.ring
      → Rotation ◌<ℤ◌ ring.ring token.value (ring_range_full s ring token)
  strict_turn s law ring token h = turn_of ◌<ℤ◌ s ring token (
      search_place ◌<ℤ◌ (λ a b k. omega (arith, k)) (λ a b k. k) s law (tokens_of ring.ring)
        token.value h)

  -- The walk from the first of the members at or above a token, or from the first of all.
  again_after :
      (before : List (Token × A)) (y : Token × A) (after walk : List (Token × A))
      → IsStrict (before ++ y ∷ after)
      → Rotation ◌<ℤ◌ (before ++ y ∷ after) y.0.value walk
      → walk ≡ (y ∷ after) ++ before
  again_after before y after walk h q =
      let (b, a) = split_at before y after h in
      let (p, r) =
        unique_split y.0.value q.before q.after before (y ∷ after) q.whole q.low q.high b a in
      q.turned ∙ simp (p, r) refl

  again :
      (before after : List (Token × A)) (x : Token × A) (rest walk : List (Token × A))
      → after ++ before ≡ x ∷ rest
      → IsStrict (before ++ after)
      → Rotation ◌<ℤ◌ (before ++ after) x.0.value walk
      → walk ≡ after ++ before
  again [] [] x rest walk e h q = cc
  again before (y ∷ after) x rest walk e h q =
      let same : x ≡ y = cc in
      again_after before y after walk h
        (subst (λ z. Rotation ◌<ℤ◌ (before ++ y ∷ after) z.0.value walk) same q)
  again (y ∷ before) [] x rest walk e h q =
      let same : x ≡ y = cc in
      let whole : (y ∷ before) ++ [] ≡ y ∷ before = append-nil (y ∷ before) in
      again_after [] y before walk (subst IsStrict whole h) (
        subst (λ l. Rotation ◌<ℤ◌ l y.0.value walk) whole
          (subst (λ z. Rotation ◌<ℤ◌ ((y ∷ before) ++ []) z.0.value walk) same q))
      ∙ whole

  -- A walk from the token of the first member of a walk is that walk.
  pub walk_again :
      (s : Search)
      → IsBinarySearch s
      → (ring : TokenRing A) (token : Token) → IsStrict ring.ring
      → (x : Token × A) (rest : List (Token × A)) → ring_range_full s ring token ≡ x ∷ rest
      → ring_range_full s ring x.0 ≡ ring_range_full s ring token
  walk_again s law ring token h x rest e =
      let r = strict_turn s law ring token h in
      let q = strict_turn s law ring x.0 h in
      again r.before r.after x rest (ring_range_full s ring x.0) (sym r.turned ∙ e)
        (subst IsStrict (sym r.whole) h)
        (subst (λ l. Rotation ◌<ℤ◌ l x.0.value (ring_range_full s ring x.0)) (sym r.whole) q)
      ∙ sym r.turned
