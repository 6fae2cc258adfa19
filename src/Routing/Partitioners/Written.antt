-- ===== src/Routing/Partitioners/Written.antt =====
-- `write` of the Murmur3 hasher against the bytes that were fed.
use Prim.Native.Nat.{min}
use mathlib.Core.Path.{ap, subst, ◌∙◌}
use mathlib.Core.List.{append-nil}
use scylla_rust_driver.Prelude.{
  ℕ, suc, ◌+◌, ◌-◌, ◌%◌, ◌^◌, ◌≤◌, ◌<◌, ◌≡◌, refl, sym, ◌∙◌, true, false, ◌&&◌, Option, some, List,
  [], ◌++◌, if◌then◌else◌, ltb, leb, ◌==◌, length, take, drop, arith, take_all, Bool-cases, inl,
  inr, length-append, length-take, length-drop, take-append-drop, lt→ltb,
}
use scylla_rust_driver.Prelude.Options.{◌>>=◌}
use scylla_rust_driver.Routing.Partitioners.{
  Buf, Murmur3PartitionerHasher, hash_words, copy_from_slice, add_usize, fetch_16_bytes_from_buf,
  fill_buffer, hash_blocks, keep_rest, murmur3_write,
}
use scylla_rust_driver.Routing.Partitioners.Feeding.{
  ReadsWords, Fed, feed, feed-append, feed_pending,
}
use scylla_rust_driver.Routing.Partitioners.Midway.{
  Midway, Holds, IsFed, Stage, length-copy_from_slice, take-copy_from_slice, words_of, fetch_block,
  hash_words-Midway, hash_blocks_lem,
}

module _ (b : Buf) (w : ReadsWords b) where
  -- A part that does not fill the block is left to be kept, and any other fills it.
  fill_waits :
      (n : ℕ) (h : Murmur3PartitionerHasher) (part : List ℕ)
      → (ltb 0 n && leb (16 - n) (length part)) ≡ false
      → fill_buffer b n h part ≡ some (h, part, n)
  unfolding fill_buffer
  fill_waits n h part e = simp e

  fill_runs :
      (n : ℕ) (h : Murmur3PartitionerHasher) (part buf : List ℕ) (k : ℕ × ℕ)
      → (ltb 0 n && leb (16 - n) (length part)) ≡ true
      → copy_from_slice n (take (16 - n) part) h.buf ≡ buf
      → fetch_16_bytes_from_buf b buf ≡ some (k, [])
      → fill_buffer b n h part ≡ some (hash_words (record h { buf = buf }) k, drop (16 - n) part, 0)
  unfolding fill_buffer
  fill_runs n h part buf k e c r =
      let whole : min (16 - n) (length part) ≡ 16 - n = ground (arith, e) in simp (e, whole, c, r)

  fill_buffer_lem :
      (h : Murmur3PartitionerHasher) (f : Fed) (part : List ℕ)
      → Midway h f (length part)
      → IsFed f
      → (ltb 0 (length f.pending) && leb (16 - length f.pending) (length part)) ≡ true
      → (h' : Murmur3PartitionerHasher) × (rest : List ℕ) × (fill_buffer b (length f.pending) h part
          ≡ some (h', rest, 0))
        × Stage b w f part h' rest
  fill_buffer_lem h f part m v e =
      let n = length f.pending in
      let few : n < 16 = omega (arith, v) in
      let enough : 16 - n ≤ length part = ground (arith, e) in
      let first = take (16 - n) part in
      let rest = drop (16 - n) part in
      let parts : part ≡ first ++ rest = sym (take-append-drop (16 - n) part) in
      let size : length first ≡ 16 - n = omega (arith, length-take (16 - n) part, enough) in
      let less : length rest ≡ length part - (16 - n) = length-drop (16 - n) part in
      let buf = copy_from_slice n first h.buf in
      let fits : n + length first ≤ length h.buf = omega (arith, size, m.size, few) in
      let long : length buf ≡ 16 = length-copy_from_slice n first h.buf fits ∙ m.size in
      let filled : n + length first ≡ 16 = omega (arith, size, few) in
      let content : take 16 buf ≡ f.pending ++ first =
        subst (λ k. take k buf ≡ take n h.buf ++ first) filled
          (take-copy_from_slice n first h.buf fits)
        ∙ ap (λ l. l ++ first) m.pending in
      let block : buf ≡ f.pending ++ first =
        sym (take_all 16 buf (omega (arith, long))) ∙ content in
      let (m', p) =
        hash_words-Midway b w h f first buf (length rest)
          (subst (λ k. Midway h f k) (omega (arith, size, less, enough)) m) few
          (omega (arith, size, few)) long in
      let read : fetch_16_bytes_from_buf b buf ≡ some (words_of b w (f.pending ++ first), []) =
        subst (λ l. fetch_16_bytes_from_buf b l ≡ some (words_of b w (f.pending ++ first), []))
          (append-nil (f.pending ++ first) ∙ sym block)
          (fetch_block b w (f.pending ++ first) [] (rw⁻¹ block long)) in
      (
        hash_words (record h { buf = buf }) (words_of b w (f.pending ++ first)),
        rest,
        fill_runs n h part buf (words_of b w (f.pending ++ first)) e refl read,
        record {
          after = feed b w f first;
          midway = m';
          settled = p;
          same = ap (feed b w f) parts ∙ feed-append b w f first rest;
        },
      )

  keep_rest_lem :
      (h : Murmur3PartitionerHasher) (f : Fed) (part : List ℕ)
      → Midway h f (length part)
      → length f.pending + length part < 16
      → (h' : Murmur3PartitionerHasher) × (keep_rest b (length f.pending) h part ≡ some h')
        × Holds h' (feed b w f part)
  unfolding keep_rest
  keep_rest_lem h f part m k =
      let n = length f.pending in
      let fits : n + length part ≤ length h.buf = omega (arith, m.size, k) in
      (
        record h { buf = copy_from_slice n part h.buf },
        simp (lt→ltb (length part) (16 - n) (omega (arith, k))),
        subst (Holds (record h { buf = copy_from_slice n part h.buf }))
            (sym (feed_pending b w f part k))
            (record {
              total = omega (arith, m.total);
              half1 = m.half1;
              half2 = m.half2;
              size = length-copy_from_slice n part h.buf fits ∙ m.size;
              pending =
                  ap (λ i. take i (copy_from_slice n part h.buf)) (length-append f.pending part)
                  ∙ take-copy_from_slice n part h.buf fits
                  ∙ ap (λ l. l ++ part) m.pending;
            }),
      )

  -- `hash_blocks` and `keep_rest` from an empty buffer on.
  settled_write :
      (h : Murmur3PartitionerHasher) (f : Fed) (part : List ℕ)
      → Midway h f (length part)
      → f.pending ≡ []
      → (h' : Murmur3PartitionerHasher) × ((hash_blocks b (suc (length part)) h part >>= λ hashed.
            keep_rest b 0 hashed.0 hashed.1)
          ≡ some h')
        × Holds h' (feed b w f part)
  settled_write h f part m p =
      let (h1, rest, e, stage, short) =
        hash_blocks_lem b w (suc (length part)) h f part m p (omega arith) in
      let empty : length stage.after.pending ≡ 0 = ap length stage.settled in
      let (h2, k, holds) =
        keep_rest_lem h1 stage.after rest stage.midway (omega (arith, empty, short)) in
      (
        h2,
        rw e (subst (λ n. keep_rest b n h1 rest ≡ some h2) empty k),
        subst (Holds h2) (sym stage.same) holds,
      )

  -- `murmur3_write` behind `fill_buffer`.
  abbrev after_fill : Murmur3PartitionerHasher × List ℕ × ℕ → Option Murmur3PartitionerHasher
  after_fill filled =
      (if filled.2 == 0
        then hash_blocks b (suc (length filled.1)) filled.0 filled.1
        else some (filled.0, filled.1))
      >>= λ hashed. keep_rest b filled.2 hashed.0 hashed.1

  write_steps :
      (h : Murmur3PartitionerHasher) (part : List ℕ) (n : ℕ)
      (filled : Murmur3PartitionerHasher × List ℕ × ℕ)
      → h.total_len + length part < 2 ^ 64
      → h.total_len % 16 ≡ n
      → fill_buffer b n (record h { total_len = h.total_len + length part }) part ≡ some filled
      → murmur3_write b h part ≡ after_fill filled
  unfolding murmur3_write add_usize
  write_steps h part n filled k e r = simp (lt→ltb (h.total_len + length part) (2 ^ 64) k, e, r)

  After : Murmur3PartitionerHasher × List ℕ × ℕ → Fed → Type 0
  After filled f = (h' : Murmur3PartitionerHasher) × (after_fill filled ≡ some h') × Holds h' f

  settled_keeps :
      (h : Murmur3PartitionerHasher) (f : Fed) (part : List ℕ)
      → Midway h f (length part)
      → f.pending ≡ []
      → After (h, part, 0) (feed b w f part)
  unfolding After
  settled_keeps h f part m p = settled_write h f part m p

  waiting_keeps :
      (h : Murmur3PartitionerHasher) (f : Fed) (part : List ℕ)
      → Midway h f (length part)
      → (ltb 0 (length f.pending) && leb (16 - length f.pending) (length part)) ≡ false
      → length f.pending < 16
      → After (h, part, length f.pending) (feed b w f part)
  unfolding After
  waiting_keeps h f part m e few = elim (Bool-cases (length f.pending == 0)) [
    | inl zero' ↦
        let empty : length f.pending ≡ 0 = ground (arith, zero') in
        let bare : f.pending ≡ [] =
          subst (λ n. take n h.buf ≡ f.pending → f.pending ≡ []) (sym empty) (λ t. sym t)
            m.pending in
        subst (λ n. After (h, part, n) (feed b w f part)) (sym empty)
          (settled_keeps h f part m bare)
    | inr some' ↦
        let (h', k, holds) = keep_rest_lem h f part m (ground (arith, e, some', few)) in
        (h', simp (some', k), holds)
  ]

  -- A write runs without a panic, and the hasher then holds what it was fed before with the part.
  pub murmur3_write-Holds :
      (h : Murmur3PartitionerHasher) (f : Fed) (part : List ℕ)
      → Holds h f
      → IsFed f
      → f.total + length part < 2 ^ 64
      → (h' : Murmur3PartitionerHasher) × (murmur3_write b h part ≡ some h')
        × Holds h' (feed b w f part)
  unfolding After
  murmur3_write-Holds h f part m v k =
      let longer : Murmur3PartitionerHasher = record h { total_len = h.total_len + length part } in
      let m' : Midway longer f (length part) = record {
        total = omega (arith, m.total);
        half1 = m.half1;
        half2 = m.half2;
        size = m.size;
        pending = m.pending;
      } in
      let n : h.total_len % 16 ≡ length f.pending = omega (arith, m.total, v) in
      let fits : h.total_len + length part < 2 ^ 64 = omega (arith, m.total, k) in
      elim (Bool-cases (ltb 0 (length f.pending) && leb (16 - length f.pending) (length part))) [
        | inl runs ↦
            let (h1, rest, e, stage) = fill_buffer_lem longer f part m' v runs in
            let (h2, k2, holds) = settled_keeps h1 stage.after rest stage.midway stage.settled in
            (
              h2,
              write_steps h part (length f.pending) (h1, rest, 0) fits n e ∙ k2,
              subst (Holds h2) (sym stage.same) holds,
            )
        | inr waits ↦
            let (h2, k2, holds) = waiting_keeps longer f part m' waits (omega (arith, v)) in
            (
              h2,
              write_steps h part (length f.pending) (longer, part, length f.pending) fits n
                    (fill_waits (length f.pending) longer part waits)
                  ∙ k2,
              holds,
            )
      ]
