-- ===== src/Prelude/Distinct.antt =====
-- The elements of a list with distinct keys, in their order, and how many there are.
use mathlib.Core.Path.{◌≡◌, refl, sym, ap, subst, ◌∙◌}
use mathlib.Core.Logic.{◌↔◌, inl, inr}
use mathlib.Core.Bool.{Bool, true, false, ◌||◌}
use mathlib.Core.List.{List, [], ◌∷◌, map, Permᴰ}
use Prim.Native.Nat.{ℕ, suc, ◌+◌, ◌≤◌}
use native.Mathlib.Omega.{arith}
use scylla_rust_driver.Prelude.Tests.{Bool-cases, if◌then◌else◌}
use scylla_rust_driver.Prelude.Lists.{length, All}

-- `Eq` of a key.
pub record Key (K : Type 0) : Type 0 where
  pub test : K → K → Bool
  pub test_iff : (a b : K) → (test a b ≡ true) ↔ (a ≡ b)

or_swap : (a b c : Bool) → (a || (b || c)) ≡ (b || (a || c))
or_swap true true c = refl
or_swap true false c = refl
or_swap false b c = refl

module _ {K : Type 0} (eq : Key K) where
  pub test_sym : (a b : K) → eq.test b a ≡ false → eq.test a b ≡ false
  test_sym a b h = elim (Bool-cases (eq.test a b)) [
    | inl e ↦
        let back : eq.test b a ≡ true = (eq.test_iff b a).1 (sym ((eq.test_iff a b).0 e)) in cc
    | inr e ↦ e
  ]

  -- `contains`.
  abbrev pub mem : K → List K → Bool
  mem x [] = false
  mem x (y ∷ ys) = eq.test x y || mem x ys

  abbrev pub SameKeys : List K → List K → Type 0
  SameKeys seen seen' = (x : K) → mem x seen ≡ mem x seen'

  pub SameKeys-cons : (x : K) (ks ls : List K) → SameKeys ks ls → SameKeys (x ∷ ks) (x ∷ ls)
  SameKeys-cons x ks ls h y = ap (λ m. eq.test y x || m) (h y)

  pub SameKeys-swap :
      (x y : K) (ks ls : List K) → SameKeys ks ls → SameKeys (x ∷ y ∷ ks) (y ∷ x ∷ ls)
  SameKeys-swap x y ks ls h z =
      ap (λ m. eq.test z x || (eq.test z y || m)) (h z)
      ∙ or_swap (eq.test z x) (eq.test z y) (mem z ls)

  -- A key that is in the list adds nothing to it.
  pub SameKeys-known : (x : K) (ks : List K) → mem x ks ≡ true → SameKeys (x ∷ ks) ks
  SameKeys-known x ks h y = elim (Bool-cases (eq.test y x)) [
    | inl e ↦
        let same : mem y ks ≡ true = subst (λ z. mem z ks ≡ true) (sym ((eq.test_iff y x).0 e)) h in
        simp (e, same)
    | inr e ↦ simp e
  ]

module _ {A K : Type 0} (eq : Key K) (key : A → K) where
  -- `unique_by`, after some keys.
  abbrev pub unique_from : List K → List A → List A
  unique_from seen [] = []
  unique_from seen (x ∷ xs) = elim (mem eq (key x) seen) [
    | true ↦ unique_from seen xs
    | false ↦ x ∷ unique_from (key x ∷ seen) xs
  ]

  abbrev pub fresh : List K → List A → ℕ
  fresh seen xs = length (unique_from seen xs)

  pub unique_known :
      (seen : List K) (x : A) (xs : List A)
      → mem eq (key x) seen ≡ true
      → unique_from seen (x ∷ xs) ≡ unique_from seen xs
  unique_known seen x xs e = rw (e, unique_from) refl

  pub unique_new :
      (seen : List K) (x : A) (xs : List A)
      → mem eq (key x) seen ≡ false
      → unique_from seen (x ∷ xs) ≡ x ∷ unique_from (key x ∷ seen) xs
  unique_new seen x xs e = rw (e, unique_from) refl

  pub fresh_known :
      (seen : List K) (x : A) (xs : List A)
      → mem eq (key x) seen ≡ true
      → fresh seen (x ∷ xs) ≡ fresh seen xs
  fresh_known seen x xs e = ap length (unique_known seen x xs e)

  pub fresh_new :
      (seen : List K) (x : A) (xs : List A)
      → mem eq (key x) seen ≡ false
      → fresh seen (x ∷ xs) ≡ suc (fresh (key x ∷ seen) xs)
  fresh_new seen x xs e = ap length (unique_new seen x xs e)

  pub fresh_le : (seen : List K) (xs : List A) → fresh seen xs ≤ length xs
  fresh_le seen [] = omega arith
  fresh_le seen (x ∷ xs) = elim (Bool-cases (mem eq (key x) seen)) [
    | inl e ↦ omega (arith, fresh_known seen x xs e, fresh_le seen xs)
    | inr e ↦ omega (arith, fresh_new seen x xs e, fresh_le (key x ∷ seen) xs)
  ]

  -- Which keys were seen matters, and not their order.
  pub fresh-SameKeys :
      (xs : List A) (seen seen' : List K) → SameKeys eq seen seen' → fresh seen xs ≡ fresh seen' xs
  fresh-SameKeys [] seen seen' h = refl
  fresh-SameKeys (x ∷ xs) seen seen' h = elim (Bool-cases (mem eq (key x) seen)) [
    | inl e ↦
        fresh_known seen x xs e
        ∙ fresh-SameKeys xs seen seen' h
        ∙ sym (fresh_known seen' x xs (sym (h (key x)) ∙ e))
    | inr e ↦
        fresh_new seen x xs e
        ∙ ap suc (
            fresh-SameKeys xs (key x ∷ seen) (key x ∷ seen')
              (SameKeys-cons eq (key x) seen seen' h))
        ∙ sym (fresh_new seen' x xs (sym (h (key x)) ∙ e))
  ]

  -- The first element counts as one that is not seen, if it is not.
  fresh_first :
      (seen : List K) (x : A) (xs : List A)
      → fresh seen (x ∷ xs) ≡ (if mem eq (key x) seen then 0 else 1) + fresh (key x ∷ seen) xs
  fresh_first seen x xs = elim (Bool-cases (mem eq (key x) seen)) [
    | inl e ↦
        let known = fresh-SameKeys xs (key x ∷ seen) seen (SameKeys-known eq (key x) seen e) in
        rw e (omega (arith, fresh_known seen x xs e, known))
    | inr e ↦ rw e (omega (arith, fresh_new seen x xs e))
  ]

  -- A key more that was seen leaves no more elements.
  pub fresh_mono : (k : K) (seen : List K) (xs : List A) → fresh (k ∷ seen) xs ≤ fresh seen xs
  fresh_mono k seen [] = omega arith
  fresh_mono k seen (x ∷ xs) =
      let a = fresh_first seen x xs in
      let b = fresh_first (k ∷ seen) x xs in
      let swapped =
        fresh-SameKeys xs (key x ∷ k ∷ seen) (k ∷ key x ∷ seen)
          (SameKeys-swap eq (key x) k seen seen (λ z. refl)) in
      let ih = fresh_mono k (key x ∷ seen) xs in
      elim (Bool-cases (mem eq (key x) seen)) [
        | inl e ↦
            let e' : mem eq (key x) (k ∷ seen) ≡ true = ground (arith, e) in
            ground (arith, a, b, swapped, ih, e, e')
        | inr e ↦ elim (Bool-cases (mem eq (key x) (k ∷ seen))) [
          | inl e' ↦ ground (arith, a, b, swapped, ih, e, e')
          | inr e' ↦ ground (arith, a, b, swapped, ih, e, e')
        ]
      ]

  -- The first of distinct elements is not seen, and the others are distinct behind it.
  pub fresh_all :
      (seen : List K) (x : A) (xs : List A)
      → fresh seen (x ∷ xs) ≡ suc (length xs)
      → (mem eq (key x) seen ≡ false) × (fresh (key x ∷ seen) xs ≡ length xs)
  fresh_all seen x xs h = elim (Bool-cases (mem eq (key x) seen)) [
    | inl e ↦ absurd (omega (arith, h, fresh_known seen x xs e, fresh_le seen xs))
    | inr e ↦ (e, omega (arith, h, fresh_new seen x xs e))
  ]

  pub All-unique_from :
      (P : A → Type 0) (seen : List K) (xs : List A) → All P xs → All P (unique_from seen xs)
  All-unique_from P seen [] h = tt
  All-unique_from P seen (x ∷ xs) (p, h) = elim (Bool-cases (mem eq (key x) seen)) [
    | inl e ↦ subst (All P) (sym (unique_known seen x xs e)) (All-unique_from P seen xs h)
    | inr e ↦
        subst (All P) (sym (unique_new seen x xs e)) (p, All-unique_from P (key x ∷ seen) xs h)
  ]

  fresh_two :
      (seen : List K) (x y : A) (xs : List A) → fresh seen (x ∷ y ∷ xs) ≡ fresh seen (y ∷ x ∷ xs)
  fresh_two seen x y xs =
      let a = fresh_first seen x (y ∷ xs) in
      let b = fresh_first (key x ∷ seen) y xs in
      let c = fresh_first seen y (x ∷ xs) in
      let d = fresh_first (key y ∷ seen) x xs in
      let f =
        fresh-SameKeys xs (key y ∷ key x ∷ seen) (key x ∷ key y ∷ seen)
          (SameKeys-swap eq (key y) (key x) seen seen (λ z. refl)) in
      elim (Bool-cases (eq.test (key y) (key x))) [
        | inl e ↦
            let same : key y ≡ key x = (eq.test_iff (key y) (key x)).0 e in
            let e' : eq.test (key x) (key y) ≡ true = (eq.test_iff (key x) (key y)).1 (sym same) in
            let m : mem eq (key y) seen ≡ mem eq (key x) seen = ap (λ k. mem eq k seen) same in
            ground (arith, a, b, c, d, f, m, e, e')
        | inr e ↦
            let e' : eq.test (key x) (key y) ≡ false = test_sym eq (key x) (key y) e in
            ground (arith, a, b, c, d, f, e, e')
      ]

  fresh_tail :
      (seen : List K) (x : A) (xs ys : List A)
      → fresh (key x ∷ seen) xs ≡ fresh (key x ∷ seen) ys
      → fresh seen (x ∷ xs) ≡ fresh seen (x ∷ ys)
  fresh_tail seen x xs ys h =
      fresh_first seen x xs
      ∙ ap (λ n. (if mem eq (key x) seen then 0 else 1) + n) h
      ∙ sym (fresh_first seen x ys)

  -- The number of distinct keys does not depend on the order.
  pub fresh-Perm : {xs ys : List A} → Permᴰ xs ys → (seen : List K) → fresh seen xs ≡ fresh seen ys
  fresh-Perm Permᴰ.nil seen = refl
  fresh-Perm (Permᴰ.cons {a} {b} {l₁ = xs} {l₂ = ys} e p) seen =
      fresh_tail seen a xs ys (fresh-Perm p (key a ∷ seen)) ∙ ap (λ x. fresh seen (x ∷ ys)) e
  fresh-Perm (Permᴰ.swap {a} {b} {a' = c} {l = xs} e1 e2) seen =
      fresh_two seen a b xs
      ∙ ap (λ y. fresh seen (y ∷ a ∷ xs)) e2
      ∙ ap (λ x. fresh seen (c ∷ x ∷ xs)) e1
  fresh-Perm (Permᴰ.trans p q) seen = fresh-Perm p seen ∙ fresh-Perm q seen

-- Elements of one key of the first kind have one key of the second kind.
module _ {A H R : Type 0} (eq_h : Key H) (eq_r : Key R) (host : A → H) (rack : A → R)
    (rack_of : H → R) where
  known_link :
      (h : H) (x : A) (seen : List H) (racks : List R)
      → rack x ≡ rack_of (host x)
      → ((g : H) → mem eq_h g seen ≡ true → mem eq_r (rack_of g) racks ≡ true)
      → mem eq_h h (host x ∷ seen) ≡ true
      → mem eq_r (rack_of h) (rack x ∷ racks) ≡ true
  known_link h x seen racks same link m = elim (Bool-cases (eq_h.test h (host x))) [
    | inl e ↦
        let r : rack_of h ≡ rack x = ap rack_of ((eq_h.test_iff h (host x)).0 e) ∙ sym same in
        let t : eq_r.test (rack_of h) (rack x) ≡ true = (eq_r.test_iff (rack_of h) (rack x)).1 r in
        simp t
    | inr e ↦
        let old : mem eq_h h seen ≡ true = simp e at m in
        let old' : mem eq_r (rack_of h) racks ≡ true = link h old in
        elim (Bool-cases (eq_r.test (rack_of h) (rack x))) [
          | inl t ↦ simp t
          | inr t ↦ simp (t, old')
        ]
  ]

  -- Leaving out elements whose first key was seen does not change the number of second keys.
  pub fresh-unique_from :
      (xs : List A) (seen : List H) (racks : List R)
      → All (λ x. rack x ≡ rack_of (host x)) xs
      → ((h : H) → mem eq_h h seen ≡ true → mem eq_r (rack_of h) racks ≡ true)
      → fresh eq_r rack racks (unique_from eq_h host seen xs) ≡ fresh eq_r rack racks xs
  fresh-unique_from [] seen racks same link = refl
  fresh-unique_from (x ∷ xs) seen racks (one, same) link =
      elim (Bool-cases (mem eq_h (host x) seen)) [
        | inl e ↦
            let known : mem eq_r (rack x) racks ≡ true =
              subst (λ r. mem eq_r r racks ≡ true) (sym one) (link (host x) e) in
            ap (fresh eq_r rack racks) (unique_known eq_h host seen x xs e)
            ∙ fresh-unique_from xs seen racks same link
            ∙ sym (fresh_known eq_r rack racks x xs known)
        | inr e ↦
            let rest =
              fresh-unique_from xs (host x ∷ seen) (rack x ∷ racks) same
                (λ h. known_link h x seen racks one link) in
            ap (fresh eq_r rack racks) (unique_new eq_h host seen x xs e)
            ∙ fresh_tail eq_r rack racks x (unique_from eq_h host (host x ∷ seen) xs) xs rest
      ]

-- The keys alone have as many distinct ones.
pub fresh-map :
    {A K : Type 0} (eq : Key K) (key : A → K) (seen : List K) (xs : List A)
    → fresh eq (λ k. k) seen (map key xs) ≡ fresh eq key seen xs
fresh-map eq key seen [] = refl
fresh-map eq key seen (x ∷ xs) = elim (Bool-cases (mem eq (key x) seen)) [
  | inl e ↦
      fresh_known eq (λ k. k) seen (key x) (map key xs) e
      ∙ fresh-map eq key seen xs
      ∙ sym (fresh_known eq key seen x xs e)
  | inr e ↦
      fresh_new eq (λ k. k) seen (key x) (map key xs) e
      ∙ ap suc (fresh-map eq key (key x ∷ seen) xs)
      ∙ sym (fresh_new eq key seen x xs e)
]

-- What holds of all elements holds of them in another order.
pub All-Perm : {A : Type 0} (P : A → Type 0) {xs ys : List A} → Permᴰ xs ys → All P xs → All P ys
All-Perm P Permᴰ.nil h = tt
All-Perm P (Permᴰ.cons e p) (a, h) = (subst P e a, All-Perm P p h)
All-Perm P (Permᴰ.swap e1 e2) h = (subst P e2 h.1.0, (subst P e1 h.0, h.1.1))
All-Perm P (Permᴰ.trans p q) h = All-Perm P q (All-Perm P p h)
