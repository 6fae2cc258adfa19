-- ===== src/Routing/Partitioners/Parts.antt =====
-- The token of a key that the Murmur3 hasher is fed in parts.
use Prim.Native.Nat.{min, bit_xor}
use mathlib.Core.Path.{subst, ◌∙◌}
use scylla_rust_driver.Prelude.{
  ℕ, zero, suc, ◌+◌, ◌-◌, ◌*◌, ◌%◌, ◌^◌, ◌≤◌, ◌<◌, ◌≡◌, refl, sym, ◌∙◌, Option, some, List, [], ◌∷◌,
  ◌++◌, ltb, length, take, arith, Bool-cases, inl, inr, length-append, ltb→lt,
}
use scylla_rust_driver.Prelude.Options.{◌>>=◌}
use scylla_rust_driver.Routing.Partitioners.{
  Buf, Murmur3PartitionerHasher, murmur3_build_hasher, murmur3_write, murmur3_finish, xor_bytes,
  byte_at, sign_extend, tail_h1, tail_h2,
}
use scylla_rust_driver.Routing.Partitioners.Feeding.{
  ReadsWords, Fed, nothing_fed, feed, feed-append, fed_token,
}
use scylla_rust_driver.Routing.Partitioners.Midway.{Holds, IsFed, feed-IsFed}
use scylla_rust_driver.Routing.Partitioners.{final_mix}
use scylla_rust_driver.Routing.Partitioners.Feeding.{feed_total}
use scylla_rust_driver.Routing.Partitioners.Written.{murmur3_write-Holds}

byte_at-take : (n i : ℕ) (l : List ℕ) → i < n → byte_at (take n l) i ≡ byte_at l i
byte_at-take zero i l h = absurd (omega (arith, h))
byte_at-take (suc n) i [] h = refl
byte_at-take (suc n) zero (x ∷ l) h = refl
byte_at-take (suc n) (suc i) (x ∷ l) h = byte_at-take n i l (omega (arith, h))

-- The loops of `finish` read nothing behind the pending bytes.
xor_bytes-take :
    (n offset count k : ℕ) (l : List ℕ)
    → offset + count ≤ n
    → xor_bytes offset count (take n l) k ≡ xor_bytes offset count l k
unfolding xor_bytes
xor_bytes-take n offset zero k l h = refl
xor_bytes-take n offset (suc i) k l h = rw (byte_at-take n (offset + i) l (omega (arith, h))) (
    xor_bytes-take n offset i
      (bit_xor k (sign_extend (byte_at l (offset + i)) * 2 ^ (i * 8) % 2 ^ 64)) l
      (omega (arith, h)))

tail_h1-take : (n h1 : ℕ) (l : List ℕ) → tail_h1 n (take n l) h1 ≡ tail_h1 n l h1
tail_h1-take n h1 l = elim (Bool-cases (ltb 0 n)) [
  | inl e ↦ simp (e, xor_bytes-take n 0 (min 8 n) 0 l (omega arith))
  | inr e ↦ simp e
]

tail_h2-take : (n h2 : ℕ) (l : List ℕ) → tail_h2 n (take n l) h2 ≡ tail_h2 n l h2
tail_h2-take n h2 l = elim (Bool-cases (ltb 8 n)) [
  | inl e ↦ simp (e, xor_bytes-take n 8 (n - 8) 0 l (omega (arith, ltb→lt 8 n e)))
  | inr e ↦ simp e
]

-- `finish` gives the token of what was fed.
pub murmur3_finish-fed_token :
    (h : Murmur3PartitionerHasher) (f : Fed) → Holds h f → IsFed f → murmur3_finish h ≡ fed_token f
unfolding murmur3_finish fed_token
murmur3_finish-fed_token h f m v =
    let n = length f.pending in
    let total : h.total_len ≡ f.total = omega (arith, m.total) in
    let buf_len : h.total_len % 16 ≡ n = omega (arith, total, v) in
    let low : tail_h1 n h.buf h.h1 ≡ tail_h1 n f.pending f.h1 =
      sym (tail_h1-take n h.h1 h.buf) ∙ simp (m.pending, m.half1) in
    let high : tail_h2 n h.buf h.h2 ≡ tail_h2 n f.pending f.h2 =
      sym (tail_h2-take n h.h2 h.buf) ∙ simp (m.pending, m.half2) in
    subst (λ k. final_mix h.total_len (tail_h1 k h.buf h.h1) (tail_h2 k h.buf h.h2) ≡ fed_token f)
      (sym buf_len) (simp (total, low, high))

-- The writes of a key in parts.
unfoldable pub write_parts :
    Buf → Murmur3PartitionerHasher → List (List ℕ) → Option Murmur3PartitionerHasher
write_parts b h [] = some h
write_parts b h (part ∷ parts) = murmur3_write b h part >>= λ h'. write_parts b h' parts

abbrev pub concat : List (List ℕ) → List ℕ
concat [] = []
concat (part ∷ parts) = part ++ concat parts

pub start-Holds : Holds murmur3_build_hasher nothing_fed
unfolding murmur3_build_hasher
start-Holds = record {
  total = omega arith;
  half1 = refl;
  half2 = refl;
  size = refl;
  pending = refl;
}

module _ (b : Buf) (w : ReadsWords b) where
  write_parts-Holds :
      (parts : List (List ℕ)) (h : Murmur3PartitionerHasher) (f : Fed)
      → Holds h f
      → IsFed f
      → f.total + length (concat parts) < 2 ^ 64
      → (h' : Murmur3PartitionerHasher) × (write_parts b h parts ≡ some h')
        × Holds h' (feed b w f (concat parts))
        × IsFed (feed b w f (concat parts))
  unfolding write_parts
  write_parts-Holds [] h f m v k = (h, refl, unfold feed in m, unfold feed in v)
  write_parts-Holds (part ∷ parts) h f m v k =
      let long = length-append part (concat parts) in
      let (h1, e, m1) = murmur3_write-Holds b w h f part m v (omega (arith, k, long)) in
      let total = feed_total b w f part in
      let (h2, e2, m2, v2) =
        write_parts-Holds parts h1 (feed b w f part) m1 (feed-IsFed b w f part v)
          (omega (arith, total, long, k)) in
      let joined = sym (feed-append b w f part (concat parts)) in
      (h2, rw e e2, subst (Holds h2) joined m2, subst IsFed joined v2)

  -- However a key of fewer than 2^64 bytes is split into parts, writing them does not panic, and
  -- the token is that of the key fed byte by byte.
  pub write_parts-fed_token :
      (parts : List (List ℕ))
      → length (concat parts) < 2 ^ 64
      → (h : Murmur3PartitionerHasher) × (write_parts b murmur3_build_hasher parts ≡ some h)
        × (murmur3_finish h ≡ fed_token (feed b w nothing_fed (concat parts)))
  write_parts-fed_token parts k =
      let (h, e, m, v) =
        write_parts-Holds parts murmur3_build_hasher nothing_fed start-Holds (omega arith)
          (omega (arith, k)) in
      (h, e, murmur3_finish-fed_token h (feed b w nothing_fed (concat parts)) m v)
