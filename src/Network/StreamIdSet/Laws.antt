-- ===== src/Network/StreamIdSet/Laws.antt =====
-- The bitmap as a set of numbers below 32768.
use scylla_rust_driver.Prelude.{
  ℕ, zero, suc, ◌+◌, ◌-◌, ◌*◌, ◌/◌, ◌%◌, ◌^◌, ◌<◌, ◌≡◌, refl, sym, ◌∙◌, ap, inl, inr, Bool-cases,
  Option-cases, Bool, true, false, none, some, List, [], ◌∷◌, ltb, ◌==◌, if◌then◌else◌, length, All,
  arith,
}
use mathlib.Core.Path.{subst}
use scylla_rust_driver.Prelude.Bits.{
  test_bit, set_bit, clear_bit, trailing_ones, test_bit-set_bit, test_bit-clear_bit, set_bit-lt,
  clear_bit-lt, trailing_ones_lem, test_bit_below_trailing, test_bit_ones,
}
use scylla_rust_driver.Network.StreamIdSet.{
  StreamIdSet, zeros, new, allocate_from, allocate, free_in, free,
}

abbrev IsWord : ℕ → Type 0
IsWord b = b < 2 ^ 64

-- The bit of number `j`, counted over all the words.
unfoldable pub used_in : List ℕ → ℕ → Bool
used_in [] j = false
used_in (b ∷ bs) j = if ltb j 64 then test_bit b j else used_in bs (j - 64)

unfoldable pub used : StreamIdSet → ℕ → Bool
used s j = used_in s.used_bitmap j

pub record IsBitmap (s : StreamIdSet) : Type 0 where
  pub words : All IsWord s.used_bitmap
  pub size : length s.used_bitmap ≡ 512

-- `r` is the smallest unused number of `bs`, and `bs'` is `bs` with it in use.
record Taken (bs : List ℕ) (r : ℕ) (bs' : List ℕ) : Type 0 where
  in_range : r < length bs * 64
  was_unused : used_in bs r ≡ false
  below_used : (j : ℕ) → j < r → used_in bs j ≡ true
  now_used : (j : ℕ) → used_in bs' j ≡ (if j == r then true else used_in bs j)
  words' : All IsWord bs'
  size' : length bs' ≡ length bs

Taken-here :
    (b : ℕ) (bs : List ℕ)
    → All IsWord (b ∷ bs)
    → (b == 2 ^ 64 - 1) ≡ false
    → Taken (b ∷ bs) (trailing_ones 64 b) (set_bit b (trailing_ones 64 b) ∷ bs)
unfolding used_in
Taken-here b bs w h =
    let off = trailing_ones 64 b in
    let fits : off < 64 = (trailing_ones_lem 64 b w.0 (ground arith)).0 in
    let clear : test_bit b off ≡ false = (trailing_ones_lem 64 b w.0 (ground arith)).1 in
    record {
      in_range = omega arith;
      was_unused = ground arith;
      below_used = λ j l. ground (arith, test_bit_below_trailing 64 b j);
      now_used = λ j. ground (arith, test_bit-set_bit b off j);
      words' = (set_bit-lt 64 b off fits w.0, w.1);
      size' = refl;
    }

Taken-later :
    (b : ℕ) (bs : List ℕ) (r : ℕ) (bs' : List ℕ)
    → IsWord b
    → (b == 2 ^ 64 - 1) ≡ true
    → Taken bs r bs'
    → Taken (b ∷ bs) (r + 64) (b ∷ bs')
unfolding used_in
Taken-later b bs r bs' w h t =
    let full : b ≡ 2 ^ 64 - 1 = ground arith in
    let back : r + 64 - 64 ≡ r = omega arith in
    record {
      in_range = omega (arith, t.in_range);
      was_unused = ground (arith, back, t.was_unused);
      below_used = λ j l. rw full (ground (arith, test_bit_ones 64 j, t.below_used (j - 64)));
      now_used = λ j. ground (arith, t.now_used (j - 64));
      words' = (w, t.words');
      size' = ap suc t.size';
    }

abbrev TakenFrom : ℕ → List ℕ → ℕ → List ℕ → Type 0
TakenFrom k bs id bs' = (r : ℕ) × (id ≡ r + k * 64) × Taken bs r bs'

allocate_from-Taken :
    (k : ℕ) (bs : List ℕ) (id : ℕ) (bs' : List ℕ)
    → All IsWord bs
    → allocate_from k bs ≡ some (id, bs')
    → TakenFrom k bs id bs'
unfolding allocate_from
allocate_from-Taken k [] id bs' w e = cc
allocate_from-Taken k (b ∷ bs) id bs' w e = elim (Bool-cases (b == 2 ^ 64 - 1)) [
  | inl full ↦ elim (Option-cases (allocate_from (k + 1) bs)) [
    | inl gone ↦ absurd (ground arith)
    | inr ((i, t), found) ↦
        let (r, at, taken) = allocate_from-Taken (k + 1) bs i t w.1 found in
        let same : (id ≡ i) × (bs' ≡ b ∷ t) = ground arith in
        (r + 64, omega arith, rw same.1 (Taken-later b bs r t w.0 full taken))
  ]
  | inr partial ↦
      let same : (id ≡ trailing_ones 64 b + k * 64) × (bs' ≡ set_bit b (trailing_ones 64 b) ∷ bs) =
        ground arith in
      (trailing_ones 64 b, same.0, rw same.1 (Taken-here b bs w partial))
]

-- What a successful allocation means: the smallest id that is not in use is now in use, and no
-- other id has changed.
pub record Allocated (s : StreamIdSet) (id : ℕ) (s' : StreamIdSet) : Type 0 where
  pub in_range : id < 32768
  pub was_unused : used s id ≡ false
  pub below_used : (j : ℕ) → j < id → used s j ≡ true
  pub now_used : (j : ℕ) → used s' j ≡ (if j == id then true else used s j)
  pub valid : IsBitmap s'

-- An allocation that succeeds takes the smallest id below 32768 that is not in use, and changes no
-- other.
pub allocate-Allocated :
    (s : StreamIdSet) (id : ℕ) (s' : StreamIdSet)
    → IsBitmap s
    → allocate s ≡ some (id, s')
    → Allocated s id s'
unfolding allocate used
allocate-Allocated s id s' v e = elim (Option-cases (allocate_from 0 s.used_bitmap)) [
  | inl gone ↦ absurd (ground arith)
  | inr ((i, bs), found) ↦
      let (r, at, t) = allocate_from-Taken 0 s.used_bitmap i bs v.words found in
      let same : (id ≡ r) × (s'.used_bitmap ≡ bs) = ground arith in
      let size : length s'.used_bitmap ≡ 512 = ground (arith, t.size', v.size) in
      record {
        in_range = omega (arith, t.in_range, v.size);
        was_unused = rw same.0 t.was_unused;
        below_used = λ j l. t.below_used j (omega arith);
        now_used = λ j. rw (same.0, same.1) (t.now_used j);
        valid = record { words = subst (All IsWord) (sym same.1) t.words'; size = size };
      }
]

allocate_from-none :
    (k : ℕ) (bs : List ℕ) (j : ℕ)
    → allocate_from k bs ≡ none
    → j < length bs * 64
    → used_in bs j ≡ true
unfolding allocate_from used_in
allocate_from-none k [] j e h = absurd (omega arith)
allocate_from-none k (b ∷ bs) j e h =
    ground (arith, test_bit_ones 64 j, allocate_from-none (k + 1) bs (j - 64))

-- An allocation fails only if all 32768 ids are in use.
pub allocate-none :
    (s : StreamIdSet) → IsBitmap s → allocate s ≡ none → (j : ℕ) → j < 32768 → used s j ≡ true
unfolding allocate used
allocate-none s v e j h =
    allocate_from-none 0 s.used_bitmap j (ground arith) (omega (arith, v.size))

-- `bs'` is `bs` without the number `r`.
record Freed (bs : List ℕ) (r : ℕ) (bs' : List ℕ) : Type 0 where
  now_free : (j : ℕ) → used_in bs' j ≡ (if j == r then false else used_in bs j)
  words' : All IsWord bs'
  size' : length bs' ≡ length bs

free_in-Freed :
    (bs : List ℕ) (k off : ℕ)
    → All IsWord bs
    → k < length bs
    → off < 64
    → (bs' : List ℕ) × (free_in bs k off ≡ some bs') × Freed bs (k * 64 + off) bs'
unfolding free_in used_in
free_in-Freed [] k off w h l = absurd (omega arith)
free_in-Freed (b ∷ bs) zero off w h l = (
  clear_bit b off ∷ bs,
  refl,
  record {
    now_free = λ j. ground (arith, test_bit-clear_bit b off j);
    words' = (clear_bit-lt 64 b off l w.0, w.1);
    size' = refl;
  },
)
free_in-Freed (b ∷ bs) (suc k) off w h l =
    let (bs', e, f) = free_in-Freed bs k off w.1 (omega arith) l in
    (
      b ∷ bs',
      rw e,
      record {
        now_free = λ j. ground (arith, f.now_free (j - 64));
        words' = (w.0, f.words');
        size' = ap suc f.size';
      },
    )

pub record Released (s : StreamIdSet) (id : ℕ) (s' : StreamIdSet) : Type 0 where
  pub now_free : (j : ℕ) → used s' j ≡ (if j == id then false else used s j)
  pub valid : IsBitmap s'

-- Freeing an id below 32768 does not panic, and makes that id and no other free.
pub free-Released :
    (s : StreamIdSet) (id : ℕ)
    → IsBitmap s
    → id < 32768
    → (s' : StreamIdSet) × (free s id ≡ some s') × Released s id s'
unfolding free used
free-Released s id v h =
    let (bs, e, f) =
      free_in-Freed s.used_bitmap (id / 64) (id % 64) v.words (omega (arith, v.size))
        (omega arith) in
    let at : id / 64 * 64 + id % 64 ≡ id = omega arith in
    (
      record { used_bitmap = bs },
      rw e,
      record {
        now_free = λ j. rw at at (f.now_free j);
        valid = record { words = f.words'; size = f.size' ∙ v.size };
      },
    )

zeros-words : (n : ℕ) → All IsWord (zeros n)
unfolding zeros
zeros-words zero = tt
zeros-words (suc n) = (omega arith, zeros-words n)

length-zeros : (n : ℕ) → length (zeros n) ≡ n
unfolding zeros
length-zeros zero = refl
length-zeros (suc n) = ap suc (length-zeros n)

pub new-IsBitmap : IsBitmap new
unfolding new
new-IsBitmap = record { words = zeros-words 512; size = length-zeros 512 }

test_bit_zero : (j : ℕ) → test_bit 0 j ≡ false
unfolding test_bit
test_bit_zero zero = refl
test_bit_zero (suc j) = test_bit_zero j

used_in-zeros : (n j : ℕ) → used_in (zeros n) j ≡ false
unfolding zeros used_in
used_in-zeros zero j = refl
used_in-zeros (suc n) j = ground (arith, test_bit_zero j, used_in-zeros n (j - 64))

pub used-new : (j : ℕ) → used new j ≡ false
unfolding new used
used-new j = used_in-zeros 512 j
