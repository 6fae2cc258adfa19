-- ===== src/Routing/Ring/Sorting.antt =====
-- A new ring is in the order of its tokens, and it has the members that it was made of.
use mathlib.Core.List.{Permᴰ}
use mathlib.Core.List.Permᴰ
use scylla_rust_driver.Prelude.{refl, List, [], ◌∷◌, All, All-imp, arith, Bool-cases, inl, inr}
use scylla_rust_driver.Prelude.Int.{ℤ, ◌≤ℤ◌, leb_ℤ}
use scylla_rust_driver.Routing.Sharding.{Token}
use scylla_rust_driver.Routing.Ring.{tokens_of, insert_sorted, sort_by}

le_trans_ℤ : (a b c : ℤ) → a ≤ℤ b → b ≤ℤ c → a ≤ℤ c
le_trans_ℤ a b c h k = omega (arith, h, k)

-- Every number stands so to those behind it.
abbrev pub Increases : (ℤ → ℤ → Type 0) → List ℤ → Type 0
Increases R [] = Unit
Increases R (x ∷ xs) = All (R x) xs × Increases R xs

module _ {A : Type 0} where
  -- Every member is at or below the members behind it.
  abbrev pub IsSorted : List (Token × A) → Type 0
  IsSorted [] = Unit
  IsSorted (e ∷ ring) = All (λ (m : Token × A). e.0.value ≤ℤ m.0.value) ring × IsSorted ring

  insert_sorted-Perm :
      (e : Token × A) (ring : List (Token × A)) → Permᴰ (insert_sorted e ring) (e ∷ ring)
  unfolding insert_sorted
  insert_sorted-Perm e [] = Permᴰ.refl (e ∷ [])
  insert_sorted-Perm e (m ∷ ring) = elim (Bool-cases (leb_ℤ e.0.value m.0.value)) [
    | inl h ↦ rw h (Permᴰ.refl (e ∷ m ∷ ring))
    | inr h ↦
        rw h (Permᴰ.trans (Permᴰ.cons refl (insert_sorted-Perm e ring)) (Permᴰ.swap refl refl))
  ]

  pub sort_by-Perm : (ring : List (Token × A)) → Permᴰ (sort_by ring) ring
  unfolding sort_by
  sort_by-Perm [] = Permᴰ.nil
  sort_by-Perm (e ∷ ring) =
      Permᴰ.trans (insert_sorted-Perm e (sort_by ring)) (Permᴰ.cons refl (sort_by-Perm ring))

  All-insert_sorted :
      (P : Token × A → Type 0) (e : Token × A) (ring : List (Token × A))
      → P e
      → All P ring
      → All P (insert_sorted e ring)
  unfolding insert_sorted
  All-insert_sorted P e [] p ps = (p, ps)
  All-insert_sorted P e (m ∷ ring) p (q, ps) = elim (Bool-cases (leb_ℤ e.0.value m.0.value)) [
    | inl h ↦ rw h (p, (q, ps))
    | inr h ↦ rw h (q, All-insert_sorted P e ring p ps)
  ]

  insert_sorted-IsSorted :
      (e : Token × A) (ring : List (Token × A)) → IsSorted ring → IsSorted (insert_sorted e ring)
  unfolding insert_sorted
  insert_sorted-IsSorted e [] h = (tt, tt)
  insert_sorted-IsSorted e (m ∷ ring) (below, h) = elim (Bool-cases (leb_ℤ e.0.value m.0.value)) [
    | inl k ↦
        let le : e.0.value ≤ℤ m.0.value = ground (arith, k) in
        rw k
          ((le, All-imp (λ x. le_trans_ℤ e.0.value m.0.value x.0.value le) ring below), (below, h))
    | inr k ↦
        let le : m.0.value ≤ℤ e.0.value = ground (arith, k) in
        rw k (
          All-insert_sorted (λ x. m.0.value ≤ℤ x.0.value) e ring le below,
          insert_sorted-IsSorted e ring h,
        )
  ]

  pub sort_by-IsSorted : (ring : List (Token × A)) → IsSorted (sort_by ring)
  unfolding sort_by
  sort_by-IsSorted [] = tt
  sort_by-IsSorted (e ∷ ring) = insert_sorted-IsSorted e (sort_by ring) (sort_by-IsSorted ring)

  All-tokens_of :
      (P : ℤ → Type 0) (ring : List (Token × A))
      → All (λ (m : Token × A). P m.0.value) ring
      → All P (tokens_of ring)
  All-tokens_of P [] h = tt
  All-tokens_of P (m ∷ ring) (p, h) = (p, All-tokens_of P ring h)

  pub IsSorted-Increases :
      (ring : List (Token × A)) → IsSorted ring → Increases ◌≤ℤ◌ (tokens_of ring)
  IsSorted-Increases [] h = tt
  IsSorted-Increases (e ∷ ring) (below, h) =
      (All-tokens_of (λ x. e.0.value ≤ℤ x) ring below, IsSorted-Increases ring h)
