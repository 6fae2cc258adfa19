-- ===== src/Routing/Replication/Precomputed/Lookups.antt =====
-- What a lookup in a precomputed ring gives.
use mathlib.Core.Path.{ap, subst, ◌∙◌}
use scylla_rust_driver.Prelude.{
  ℕ, ◌≡◌, refl, sym, ◌⊎◌, Option, none, some, List, [], ◌∷◌, ◌++◌, length, take, drop, map, All,
  arith, inl, inr,
}
use scylla_rust_driver.Prelude.Int.{ℤ, ◌≤ℤ◌, ◌<ℤ◌}
use scylla_rust_driver.Routing.Sharding.{Token}
use scylla_rust_driver.Routing.Ring.{
  Search, TokenRing, tokens_of, index_of, first, ring_new, ring_range, ring_range_full,
  get_elem_for_token,
}
use scylla_rust_driver.Routing.Ring.Sorting.{Increases, IsSorted}
use scylla_rust_driver.Routing.Ring.Walks.{IsBinarySearch, take-map, drop-map, length-map}
use scylla_rust_driver.Routing.Replication.Precomputed.{Replicas, replica_ring}
use scylla_rust_driver.Routing.Replication.Precomputed.Rings.{
  IsStrict, sort_by_sorted, walk_again, strict_turn,
}

map_append : {A B : Type 0} (f : A → B) (xs ys : List A) → map f (xs ++ ys) ≡ map f xs ++ map f ys
map_append f [] ys = refl
map_append f (x ∷ xs) ys = ap (λ l. f x ∷ l) (map_append f xs ys)

weaken : (t : ℤ) (xs : List ℤ) → All (λ x. t <ℤ x) xs → All (λ x. t ≤ℤ x) xs
weaken t [] h = tt
weaken t (x ∷ xs) (p, h) = (omega (arith, p), weaken t xs h)

module _ {A : Type 0} where
  All-members :
      (P : ℤ → Type 0) (ring : List (Token × A))
      → All P (tokens_of ring)
      → All (λ (m : Token × A). P m.0.value) ring
  All-members P [] h = tt
  All-members P (m ∷ ring) (p, h) = (p, All-members P ring h)

  pub IsStrict-IsSorted : (ring : List (Token × A)) → IsStrict ring → IsSorted ring
  IsStrict-IsSorted [] h = tt
  IsStrict-IsSorted (e ∷ ring) (above, h) = (
    All-members (λ x. e.0.value ≤ℤ x) ring (weaken e.0.value (tokens_of ring) above),
    IsStrict-IsSorted ring h,
  )

no_members :
    {M : Type 0} (before after ring : List M)
    → after ++ before ≡ []
    → before ++ after ≡ ring
    → ring ≡ []
no_members [] [] ring e w = sym w
no_members before (x ∷ after) ring e w = cc
no_members (x ∷ before) [] ring e w = cc

module _ {A : Type 0} (f : Token → Replicas) where
  abbrev with_replicas : Token × A → Token × Replicas
  with_replicas e = (e.0, f e.0)

  same_tokens : (ring : List (Token × A)) → tokens_of (map with_replicas ring) ≡ tokens_of ring
  same_tokens [] = refl
  same_tokens (e ∷ ring) = ap (λ l. e.0.value ∷ l) (same_tokens ring)

  replica_ring_lem :
      (ring : TokenRing A)
      → IsStrict ring.ring
      → replica_ring ring f ≡ record { ring = map with_replicas ring.ring }
  unfolding replica_ring ring_new
  replica_ring_lem ring h =
      ap (λ l. record { ring = l })
        (sort_by_sorted (map with_replicas ring.ring) (
          IsStrict-IsSorted (map with_replicas ring.ring)
            (subst (Increases ◌<ℤ◌) (sym (same_tokens ring.ring)) h)))

  -- A walk over the precomputed ring meets the replicas of the tokens of the walk over the ring.
  walk_with_replicas :
      (s : Search) (ring : TokenRing A) (token : Token)
      → ring_range_full s (record { ring = map with_replicas ring.ring }) token
        ≡ map with_replicas (ring_range_full s ring token)
  unfolding ring_range_full
  walk_with_replicas s ring token =
      let i : ℕ = index_of (s (tokens_of ring.ring) token.value) in
      ap
        (λ l. take (length (map with_replicas ring.ring)) (
          drop (index_of (s l token.value)) (map with_replicas ring.ring)
          ++ map with_replicas ring.ring))
        (same_tokens ring.ring)
      ∙ ap (λ l. take (length (map with_replicas ring.ring)) (l ++ map with_replicas ring.ring))
          (drop-map with_replicas i ring.ring)
      ∙ ap (λ l. take (length (map with_replicas ring.ring)) l)
          (sym (map_append with_replicas (drop i ring.ring) ring.ring))
      ∙ ap (λ n. take n (map with_replicas (drop i ring.ring ++ ring.ring)))
          (length-map with_replicas ring.ring)
      ∙ take-map with_replicas (length ring.ring) (drop i ring.ring ++ ring.ring)

  -- A lookup gives nothing in an empty ring, and else what was computed for a token whose walk is
  -- that of the token that is looked up.
  abbrev pub Finds : Search → TokenRing A → Token → Option Replicas → Type 0
  Finds s ring token o =
      ((ring.ring ≡ []) × (o ≡ none))
      ⊎ ((t : Token) × (o ≡ some (f t)) × (ring_range s ring t ≡ ring_range s ring token))

  first_found :
      (s : Search)
      → IsBinarySearch s
      → (ring : TokenRing A) (token : Token) → IsStrict ring.ring
      → (walk : List (Token × A)) → ring_range_full s ring token ≡ walk
      → Finds s ring token (first (map (λ e. e.1) (map with_replicas walk)))
  unfolding ring_range
  first_found s law ring token h [] e =
      let r = strict_turn s law ring token h in
      inl (no_members r.before r.after ring.ring (sym r.turned ∙ e) r.whole, refl)
  first_found s law ring token h (x ∷ rest) e =
      inr (x.0, refl, ap (map (λ m. m.1)) (walk_again s law ring token h x rest e))

  pub get_elem_for_token-Finds :
      (s : Search)
      → IsBinarySearch s
      → (ring : TokenRing A) (token : Token) → IsStrict ring.ring
      → Finds s ring token (get_elem_for_token s (replica_ring ring f) token)
  unfolding get_elem_for_token ring_range
  get_elem_for_token-Finds s law ring token h =
      subst (Finds s ring token)
        (sym (
          ap (λ r. get_elem_for_token s r token) (replica_ring_lem ring h)
          ∙ ap (λ w. first (map (λ e. e.1) w)) (walk_with_replicas s ring token)))
        (first_found s law ring token h (ring_range_full s ring token) refl)
