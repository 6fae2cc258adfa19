-- ===== src/Routing/Partitioners/Midway.antt =====
-- A Murmur3 hasher amid a write, against the bytes that were fed: the loop over whole blocks.
use mathlib.Core.Path.{ap, subst, ◌∙◌}
use mathlib.Core.List.{append_assoc}
use scylla_rust_driver.Prelude.{
  ℕ, zero, suc, ◌+◌, ◌-◌, ◌%◌, ◌≤◌, ◌<◌, ◌≡◌, refl, sym, ◌∙◌, true, some, List, [], ◌∷◌, ◌++◌, leb,
  ◌==◌, length, take, drop, arith, Bool-cases, inl, inr, length-append, length-take, length-drop,
  take-append-drop, take-length_append,
}
use scylla_rust_driver.Routing.Partitioners.{
  Buf, Murmur3PartitionerHasher, hash_words, copy_from_slice, fetch_16_bytes_from_buf, hash_blocks,
}
use scylla_rust_driver.Routing.Partitioners.Feeding.{
  ReadsWords, Fed, feed, feed_byte, byte_pending, byte_full, feed-append, feed_full,
}

-- A hasher amid a write: it was fed so, and `left` bytes of the part are yet to come. The pending
-- bytes stand at the start of its buffer.
pub record Midway (h : Murmur3PartitionerHasher) (f : Fed) (left : ℕ) : Type 0 where
  pub total : h.total_len ≡ f.total + left
  pub half1 : h.h1 ≡ f.h1
  pub half2 : h.h2 ≡ f.h2
  pub size : length h.buf ≡ 16
  pub pending : take (length f.pending) h.buf ≡ f.pending

abbrev pub Holds : Murmur3PartitionerHasher → Fed → Type 0
Holds h f = Midway h f 0

-- How many bytes are pending.
abbrev pub IsFed : Fed → Type 0
IsFed f = length f.pending ≡ f.total % 16

pub length-copy_from_slice :
    (at : ℕ) (src buf : List ℕ)
    → at + length src ≤ length buf
    → length (copy_from_slice at src buf) ≡ length buf
unfolding copy_from_slice
length-copy_from_slice at src buf h =
    let d = drop (at + length src) buf in
    omega (
      arith,
      length-append (take at buf) (src ++ d),
      length-append src d,
      length-take at buf,
      length-drop (at + length src) buf,
    )

pub take-copy_from_slice :
    (at : ℕ) (src buf : List ℕ)
    → at + length src ≤ length buf
    → take (at + length src) (copy_from_slice at src buf) ≡ take at buf ++ src
unfolding copy_from_slice
take-copy_from_slice at src buf h =
    let d = drop (at + length src) buf in
    let long : length (take at buf ++ src) ≡ at + length src =
      omega (arith, length-append (take at buf) src, length-take at buf) in
    subst (λ n. take n (take at buf ++ (src ++ d)) ≡ take at buf ++ src) long
      (rw⁻¹ (append_assoc (take at buf) src d) (take-length_append (take at buf ++ src) d))

module _ (b : Buf) (w : ReadsWords b) where
  pub fetch_block :
      (block rest : List ℕ)
      → length block ≡ 16
      → fetch_16_bytes_from_buf b (block ++ rest)
        ≡ some ((w.word_le (take 8 block), w.word_le (drop 8 block)), rest)
  unfolding fetch_16_bytes_from_buf
  fetch_block block rest h =
      let low = take 8 block in
      let high = drop 8 block in
      let parts : block ++ rest ≡ low ++ (high ++ rest) =
        ap (λ l. l ++ rest) (sym (take-append-drop 8 block)) ∙ append_assoc low high rest in
      let first = w.le low (high ++ rest) (omega (arith, length-take 8 block, h)) in
      let second = w.le high rest (omega (arith, length-drop 8 block, h)) in
      simp (parts, first, second)

  feed_byte-IsFed : (f : Fed) (x : ℕ) → IsFed f → IsFed (feed_byte b w f x)
  feed_byte-IsFed f x h = elim (Bool-cases (length f.pending + 1 == 16)) [
    | inl e ↦
        let full : length f.pending + 1 ≡ 16 = ground (arith, e) in
        subst IsFed (sym (byte_full b w f x full)) (omega (arith, h, full))
    | inr e ↦
        let short : length f.pending + 1 < 16 = ground (arith, e, h) in
        subst IsFed (sym (byte_pending b w f x short))
          (omega (arith, h, short, length-append f.pending (x ∷ [])))
  ]

  pub feed-IsFed : (f : Fed) (xs : List ℕ) → IsFed f → IsFed (feed b w f xs)
  unfolding feed
  feed-IsFed f [] h = h
  feed-IsFed f (x ∷ xs) h = feed-IsFed (feed_byte b w f x) xs (feed_byte-IsFed f x h)

  abbrev pub words_of : List ℕ → ℕ × ℕ
  words_of block = (w.word_le (take 8 block), w.word_le (drop 8 block))

  -- The bytes that fill the block are hashed.
  pub hash_words-Midway :
      (h : Murmur3PartitionerHasher) (f : Fed) (xs buf : List ℕ) (left : ℕ)
      → Midway h f (length xs + left)
      → length f.pending < 16
      → length f.pending + length xs ≡ 16
      → length buf ≡ 16
      → Midway
          (hash_words (record h { buf = buf }) (words_of (f.pending ++ xs)))
          (feed b w f xs)
          left
        × ((feed b w f xs).pending ≡ [])
  hash_words-Midway h f xs buf left m p e size =
      subst
        (λ (g : Fed).
          Midway (hash_words (record h { buf = buf }) (words_of (f.pending ++ xs))) g left
          × (g.pending ≡ []))
        (sym (feed_full b w f xs p e))
        (
          record {
            total = omega (arith, m.total);
            half1 = simp (m.half1, m.half2);
            half2 = simp (m.half1, m.half2);
            size = size;
            pending = refl;
          },
          refl,
        )

  -- What a stage of a write leaves: the bytes that are left, fed after it, make up what was to come.
  pub record Stage (f : Fed) (part : List ℕ) (h' : Murmur3PartitionerHasher) (rest : List ℕ)
      : Type 0 where
    pub after : Fed
    pub midway : Midway h' after (length rest)
    pub settled : after.pending ≡ []
    pub same : feed b w f part ≡ feed b w after rest

  blocks_step :
      (fuel : ℕ) (h : Murmur3PartitionerHasher) (part : List ℕ) (k : ℕ × ℕ) (rest : List ℕ)
      → leb 16 (length part) ≡ true
      → fetch_16_bytes_from_buf b part ≡ some (k, rest)
      → hash_blocks b (suc fuel) h part ≡ hash_blocks b fuel (hash_words h k) rest
  unfolding hash_blocks
  blocks_step fuel h part k rest e r = simp (e, r)

  pub hash_blocks_lem :
      (fuel : ℕ) (h : Murmur3PartitionerHasher) (f : Fed) (part : List ℕ)
      → Midway h f (length part)
      → f.pending ≡ []
      → length part < fuel
      → (h' : Murmur3PartitionerHasher) × (rest : List ℕ) × (hash_blocks b fuel h part
          ≡ some (h', rest))
        × Stage f part h' rest
        × (length rest < 16)
  unfolding hash_blocks
  hash_blocks_lem zero h f part m p k = absurd (omega (arith, k))
  hash_blocks_lem (suc fuel) h f part m p k = elim (Bool-cases (leb 16 (length part))) [
    | inr short ↦ (
      h,
      part,
      rw short refl,
      record { after = f; midway = m; settled = p; same = refl },
      ground (arith, short),
    )
    | inl enough ↦
        let long : 16 ≤ length part = ground (arith, enough) in
        let block = take 16 part in
        let rest = drop 16 part in
        let parts : part ≡ block ++ rest = sym (take-append-drop 16 part) in
        let full : length block ≡ 16 = omega (arith, length-take 16 part, long) in
        let less : length rest ≡ length part - 16 = length-drop 16 part in
        let none_pending : length f.pending ≡ 0 = ap length p in
        let (m', p') =
          hash_words-Midway h f block h.buf (length rest)
            (subst (λ n. Midway h f n) (omega (arith, full, less, long)) m)
            (omega (arith, none_pending)) (omega (arith, none_pending, full)) m.size in
        let read : fetch_16_bytes_from_buf b part ≡ some (words_of (f.pending ++ block), rest) =
          subst (λ l. fetch_16_bytes_from_buf b l ≡ some (words_of (f.pending ++ block), rest))
            (sym parts)
            (subst
              (λ q. fetch_16_bytes_from_buf b (block ++ rest) ≡ some (words_of (q ++ block), rest))
              (sym p) (fetch_block block rest full)) in
        let (h', left, e, stage, short) =
          hash_blocks_lem fuel (hash_words h (words_of (f.pending ++ block))) (feed b w f block)
            rest m' p' (omega (arith, less, long, k)) in
        (
          h',
          left,
          blocks_step fuel h part (words_of (f.pending ++ block)) rest enough read ∙ e,
          record {
            after = stage.after;
            midway = stage.midway;
            settled = stage.settled;
            same = ap (feed b w f) parts ∙ feed-append b w f block rest ∙ stage.same;
          },
          short,
        )
  ]
