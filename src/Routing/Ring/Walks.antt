-- ===== src/Routing/Ring/Walks.antt =====
-- A walk over the ring is a rotation of it.
use mathlib.Core.Path.{ap, subst, ◌∙◌}
use mathlib.Core.Option.{some_inj}
use scylla_rust_driver.Prelude.{
  ℕ, zero, suc, ◌≤◌, ◌≡◌, refl, some, List, [], ◌∷◌, ◌++◌, length, take, drop, map, get_elem?, All,
  All-imp, arith, Result, ok, err, take-append, length-drop, take-append-drop,
}
use scylla_rust_driver.Prelude.Int.{ℤ, ◌≤ℤ◌, ◌<ℤ◌}
use scylla_rust_driver.Routing.Sharding.{Token}
use scylla_rust_driver.Routing.Ring.{Search, TokenRing, tokens_of, index_of, ring_range_full}
use scylla_rust_driver.Routing.Ring.Sorting.{Increases, IsSorted, IsSorted-Increases}

-- What `binary_search_by` documents for a slice in order: the index of a match, or where the value
-- would be inserted.
abbrev pub Lands : List ℤ → ℤ → Result ℕ ℕ → Type 0
Lands l t (ok i) = get_elem? l i ≡ some t
Lands l t (err i) = (i ≤ length l) × All (λ x. x <ℤ t) (take i l) × All (λ x. t <ℤ x) (drop i l)

abbrev pub IsBinarySearch : Search → Type 0
IsBinarySearch s = (l : List ℤ) (t : ℤ) → Increases ◌≤ℤ◌ l → Lands l t (s l t)

-- The numbers before an index are so to the number searched for, and it is at or below the others.
abbrev pub Splits : (ℤ → ℤ → Type 0) → List ℤ → ℤ → ℕ → Type 0
Splits R l t i = (i ≤ length l) × All (λ x. R x t) (take i l) × All (λ x. t ≤ℤ x) (drop i l)

All-get : (P : ℤ → Type 0) (l : List ℤ) (i : ℕ) (t : ℤ) → All P l → get_elem? l i ≡ some t → P t
All-get P [] i t h e = cc
All-get P (x ∷ l) zero t (p, h) e = subst P (some_inj.0 e) p
All-get P (x ∷ l) (suc i) t (p, h) e = All-get P l i t h e

found_at :
    (R : ℤ → ℤ → Type 0)
    → ((a b : ℤ) → R a b → a ≤ℤ b)
    → (l : List ℤ) (i : ℕ) (t : ℤ) → Increases R l
    → get_elem? l i ≡ some t
    → Splits R l t i
found_at R weak [] i t h e = cc
found_at R weak (x ∷ l) zero t (below, h) e =
    subst (λ y. Splits R (x ∷ l) y 0) (some_inj.0 e)
      (omega arith, tt, (omega arith, All-imp (λ y. weak x y) l below))
found_at R weak (x ∷ l) (suc i) t (below, h) e =
    let (le, low, high) = found_at R weak l i t h e in
    (omega (arith, le), (All-get (R x) l i t below e, low), high)

module _ (R : ℤ → ℤ → Type 0) (weak : (a b : ℤ) → R a b → a ≤ℤ b)
    (strict : (a b : ℤ) → a <ℤ b → R a b) where
  landing :
      (l : List ℤ) (t : ℤ) (r : Result ℕ ℕ)
      → Increases R l
      → Lands l t r
      → Splits R l t (index_of r)
  landing l t (ok i) h e = found_at R weak l i t h e
  landing l t (err i) h (le, low, high) = (
    le,
    All-imp (λ x. strict x t) (take i l) low,
    All-imp (λ x k. omega (arith, k)) (drop i l) high,
  )

  Increases-weak : (l : List ℤ) → Increases R l → Increases ◌≤ℤ◌ l
  Increases-weak [] h = tt
  Increases-weak (x ∷ l) (below, h) = (All-imp (λ y. weak x y) l below, Increases-weak l h)

  pub search_place :
      (s : Search)
      → IsBinarySearch s
      → (l : List ℤ) (t : ℤ) → Increases R l
      → Splits R l t (index_of (s l t))
  search_place s law l t h = landing l t (s l t) h (law l t (Increases-weak l h))

module _ {A B : Type 0} where
  pub take-map : (f : A → B) (n : ℕ) (l : List A) → take n (map f l) ≡ map f (take n l)
  take-map f zero l = refl
  take-map f (suc n) [] = refl
  take-map f (suc n) (x ∷ l) = ap (λ r. f x ∷ r) (take-map f n l)

  pub drop-map : (f : A → B) (n : ℕ) (l : List A) → drop n (map f l) ≡ map f (drop n l)
  drop-map f zero l = refl
  drop-map f (suc n) [] = refl
  drop-map f (suc n) (x ∷ l) = drop-map f n l

  pub length-map : (f : A → B) (l : List A) → length (map f l) ≡ length l
  length-map f [] = refl
  length-map f (x ∷ l) = ap suc (length-map f l)

module _ {A : Type 0} where
  wrap_around :
      (i : ℕ) (l : List A) → i ≤ length l → take (length l) (drop i l ++ l) ≡ drop i l ++ take i l
  wrap_around i l h =
      take-append (length l) (drop i l) l (omega (arith, length-drop i l))
      ∙ ap (λ n. drop i l ++ take n l) (omega (arith, length-drop i l, h))

module _ {A : Type 0} where
  -- A walk from a token: first the members from the token on, then those before it, each part in
  -- the order of the ring.
  pub record Rotation (R : ℤ → ℤ → Type 0) (ring : List (Token × A)) (t : ℤ)
      (walk : List (Token × A)) : Type 0 where
    pub before : List (Token × A)
    pub after : List (Token × A)
    pub whole : before ++ after ≡ ring
    pub turned : walk ≡ after ++ before
    pub low : All (λ x. R x t) (tokens_of before)
    pub high : All (λ x. t ≤ℤ x) (tokens_of after)

  pub turn_of :
      (R : ℤ → ℤ → Type 0) (s : Search) (ring : TokenRing A) (token : Token)
      → Splits R (tokens_of ring.ring) token.value (index_of (s (tokens_of ring.ring) token.value))
      → Rotation R ring.ring token.value (ring_range_full s ring token)
  unfolding ring_range_full
  turn_of R s ring token (le, low, high) =
      let i = index_of (s (tokens_of ring.ring) token.value) in
      let t : Token × A → ℤ = λ e. e.0.value in
      record {
        before = take i ring.ring;
        after = drop i ring.ring;
        whole = take-append-drop i ring.ring;
        turned = wrap_around i ring.ring (omega (arith, le, length-map t ring.ring));
        low = subst (All (λ x. R x token.value)) (take-map t i ring.ring) low;
        high = subst (All (λ x. token.value ≤ℤ x)) (drop-map t i ring.ring) high;
      }

  -- A walk from a token over a ring in order gives the members at or above the token, and then
  -- those at or below it, each member of the ring once and each part in the order of the ring.
  pub ring_range_full-Rotation :
      (s : Search)
      → IsBinarySearch s
      → (ring : TokenRing A) (token : Token) → IsSorted ring.ring
      → Rotation ◌≤ℤ◌ ring.ring token.value (ring_range_full s ring token)
  ring_range_full-Rotation s law ring token h = turn_of ◌≤ℤ◌ s ring token (
      search_place ◌≤ℤ◌ (λ a b k. k) (λ a b k. omega (arith, k)) s law (tokens_of ring.ring)
        token.value (IsSorted-Increases ring.ring h))
