-- ===== src/Routing/Partitioners/Feeding.antt =====
-- The bytes that a Murmur3 hasher was fed, one by one: the specification of `write` and `finish`.
use mathlib.Core.Path.{ap}
use mathlib.Core.List.{append-nil, append_assoc}
use scylla_rust_driver.Prelude.{
  ℕ, suc, ◌+◌, ◌<◌, ◌≡◌, refl, ◌∙◌, true, false, some, List, [], ◌∷◌, ◌++◌, if◌then◌else◌, ◌==◌,
  length, take, drop, arith, Bool-cases, inl, inr, length-append,
}
use scylla_rust_driver.Routing.Sharding.{Token}
use scylla_rust_driver.Routing.Partitioners.{Buf, hash_16_bytes, tail_h1, tail_h2, final_mix}

-- What the crate documents of its readers: the word is made of the first eight bytes, and those
-- behind them are left.
pub record ReadsWords (b : Buf) : Type 0 where
  pub word_le : List ℕ → ℕ
  pub word : List ℕ → ℕ
  pub le : (a rest : List ℕ) → length a ≡ 8 → b.get_i64_le (a ++ rest) ≡ some (word_le a, rest)
  pub be : (a rest : List ℕ) → length a ≡ 8 → b.get_i64 (a ++ rest) ≡ some (word a, rest)

-- The halves of the state, how many bytes were fed, and those that are not hashed yet.
pub record Fed : Type 0 where
  pub h1 : ℕ
  pub h2 : ℕ
  pub total : ℕ
  pub pending : List ℕ

abbrev pub nothing_fed : Fed
nothing_fed = record { h1 = 0; h2 = 0; total = 0; pending = [] }

module _ (b : Buf) (w : ReadsWords b) where
  -- Sixteen bytes are hashed at once.
  abbrev pub hash_block : List ℕ → Fed → Fed
  hash_block block f =
      let (h1, h2) =
        hash_16_bytes (w.word_le (take 8 block)) (w.word_le (drop 8 block)) f.h1 f.h2 in
      record { h1 = h1; h2 = h2; total = f.total; pending = [] }

  abbrev pub settle : Fed → Fed
  settle f = if length f.pending == 16 then hash_block f.pending f else f

  unfoldable pub feed_byte : Fed → ℕ → Fed
  feed_byte f x = settle (record f { total = f.total + 1; pending = f.pending ++ x ∷ [] })

  unfoldable pub feed : Fed → List ℕ → Fed
  unfolding feed_byte
  feed f [] = f
  feed f (x ∷ xs) = feed (feed_byte f x) xs

  -- Feeding in parts is feeding the whole.
  pub feed-append : (f : Fed) (xs ys : List ℕ) → feed f (xs ++ ys) ≡ feed (feed f xs) ys
  unfolding feed
  feed-append f [] ys = refl
  feed-append f (x ∷ xs) ys = feed-append (feed_byte f x) xs ys

  feed_byte-total : (f : Fed) (x : ℕ) → (feed_byte f x).total ≡ f.total + 1
  unfolding feed_byte
  feed_byte-total f x = elim (Bool-cases (length (f.pending ++ x ∷ []) == 16)) [
    | inl e ↦ simp e
    | inr e ↦ simp e
  ]

  pub feed_total : (f : Fed) (xs : List ℕ) → (feed f xs).total ≡ f.total + length xs
  unfolding feed
  feed_total f [] = omega arith
  feed_total f (x ∷ xs) = omega (arith, feed_total (feed_byte f x) xs, feed_byte-total f x)

  -- One byte that does not fill the block, and one that does.
  pub byte_pending :
      (f : Fed) (x : ℕ)
      → length f.pending + 1 < 16
      → feed_byte f x ≡ record f { total = f.total + 1; pending = f.pending ++ x ∷ [] }
  unfolding feed_byte
  byte_pending f x h =
      let open_block : (length (f.pending ++ x ∷ []) == 16) ≡ false =
        ground (arith, length-append f.pending (x ∷ [])) in
      simp open_block

  pub byte_full :
      (f : Fed) (x : ℕ)
      → length f.pending + 1 ≡ 16
      → feed_byte f x ≡ hash_block (f.pending ++ x ∷ []) (record f { total = f.total + 1 })
  unfolding feed_byte
  byte_full f x h =
      let full : (length (f.pending ++ x ∷ []) == 16) ≡ true =
        ground (arith, length-append f.pending (x ∷ [])) in
      simp full

  -- Bytes that do not fill a block are pending.
  pub feed_pending :
      (f : Fed) (xs : List ℕ)
      → length f.pending + length xs < 16
      → feed f xs ≡ record f { total = f.total + length xs; pending = f.pending ++ xs }
  unfolding feed
  feed_pending f [] h = let t : f.total + 0 ≡ f.total = omega arith in simp (append-nil, t)
  feed_pending f (x ∷ xs) h =
      let f' : Fed = record f { total = f.total + 1; pending = f.pending ++ x ∷ [] } in
      let long = length-append f.pending (x ∷ []) in
      let t : f.total + 1 + length xs ≡ f.total + suc (length xs) = omega arith in
      ap (λ g. feed g xs) (byte_pending f x (omega (arith, h)))
      ∙ feed_pending f' xs (omega (arith, h, long))
      ∙ simp (append_assoc f.pending (x ∷ []) xs, t) refl

  -- Bytes that fill a block are hashed with those pending.
  pub feed_full :
      (f : Fed) (xs : List ℕ)
      → length f.pending < 16
      → length f.pending + length xs ≡ 16
      → feed f xs ≡ hash_block (f.pending ++ xs) (record f { total = f.total + length xs })
  unfolding feed
  feed_full f [] h e = absurd (omega (arith, h, e))
  feed_full f (x ∷ []) h e = byte_full f x (omega (arith, e))
  feed_full f (x ∷ y ∷ xs) h e =
      let f' : Fed = record f { total = f.total + 1; pending = f.pending ++ x ∷ [] } in
      let long = length-append f.pending (x ∷ []) in
      let t : f.total + 1 + suc (length xs) ≡ f.total + suc (suc (length xs)) = omega arith in
      ap (λ g. feed g (y ∷ xs)) (byte_pending f x (omega (arith, e)))
      ∙ feed_full f' (y ∷ xs) (omega (arith, e, long)) (omega (arith, e, long))
      ∙ simp (append_assoc f.pending (x ∷ []) (y ∷ xs), t) refl

-- The token of what was fed.
unfoldable pub fed_token : Fed → Token
fed_token f =
    final_mix f.total (tail_h1 (length f.pending) f.pending f.h1)
      (tail_h2 (length f.pending) f.pending f.h2)
