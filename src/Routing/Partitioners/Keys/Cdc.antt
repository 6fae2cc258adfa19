-- ===== src/Routing/Partitioners/Keys/Cdc.antt =====
-- The token of the CDC partitioner, whatever the parts of the key.
use Prim.Native.Nat.{min}
use mathlib.Core.Path.{ap, subst, ◌∙◌}
use mathlib.Core.List.{append-nil, append_assoc}
use scylla_rust_driver.Prelude.{
  ℕ, zero, suc, ◌+◌, ◌-◌, ◌≤◌, ◌<◌, ◌≡◌, refl, sym, true, false, Option, some, List, [], ◌∷◌, ◌++◌,
  if◌then◌else◌, ltb, ◌==◌, length, take, arith, take_all, take-append, Bool-cases, inl, inr,
  length-append, length-take,
}
use scylla_rust_driver.Prelude.Options.{◌>>=◌}
use scylla_rust_driver.Routing.Sharding.{Token, token_new, invalid}
use scylla_rust_driver.Routing.Partitioners.{
  Buf, CdcPartitionerHasher, cdc_build_hasher, cdc_write, cdc_finish, copy_from_slice, as_i64,
}
use scylla_rust_driver.Routing.Partitioners.Feeding.{ReadsWords}
use scylla_rust_driver.Routing.Partitioners.Midway.{length-copy_from_slice, take-copy_from_slice}
use scylla_rust_driver.Routing.Partitioners.Parts.{concat}

take-append_short : (n : ℕ) (xs ys : List ℕ) → n ≤ length xs → take n (xs ++ ys) ≡ take n xs
take-append_short zero xs ys h = refl
take-append_short (suc n) [] ys h = absurd (omega (arith, h))
take-append_short (suc n) (x ∷ xs) ys h =
    ap (λ t. x ∷ t) (take-append_short n xs ys (omega (arith, h)))

-- The writes of a key in parts.
unfoldable pub cdc_write_parts :
    Buf → CdcPartitionerHasher → List (List ℕ) → Option CdcPartitionerHasher
cdc_write_parts b h [] = some h
cdc_write_parts b h (part ∷ parts) = cdc_write b h part >>= λ h'. cdc_write_parts b h' parts

module _ (b : Buf) (w : ReadsWords b) where
  -- The token of a key: its first word, and the invalid token if it has none.
  unfoldable pub cdc_token : List ℕ → Token
  cdc_token key = if ltb (length key) 8 then invalid else token_new (as_i64 (w.word (take 8 key)))

  -- What a hasher that was fed some bytes keeps.
  unfoldable Feeds : CdcPartitionerHasher → List ℕ → Type 0
  Feeds (CdcPartitionerHasher.feeding len buf) key =
      (length key ≡ len) × (len < 8) × (length buf ≡ 8) × (take len buf ≡ key)
  Feeds (CdcPartitionerHasher.computed token) key =
      (8 ≤ length key) × (token ≡ token_new (as_i64 (w.word (take 8 key))))

  start-Feeds : Feeds cdc_build_hasher []
  unfolding Feeds cdc_build_hasher
  start-Feeds = (refl, omega arith, refl, refl)

  full_word : (buf : List ℕ) → length buf ≡ 8 → b.get_i64 buf ≡ some (w.word buf, [])
  full_word buf e =
      subst (λ l. b.get_i64 l ≡ some (w.word buf, [])) (append-nil buf) (w.be buf [] e)

  write_open :
      (len : ℕ) (buf key part : List ℕ)
      → Feeds (CdcPartitionerHasher.feeding len buf) key
      → len + length part < 8
      → (h' : CdcPartitionerHasher) × (cdc_write b (CdcPartitionerHasher.feeding len buf) part
          ≡ some h')
        × Feeds h' (key ++ part)
  unfolding Feeds cdc_write
  write_open len buf key part (e, lt, size, same) short =
      let copied : min (length part) (8 - len) ≡ length part = omega (arith, short) in
      let all : take (length part) part ≡ part = take_all (length part) part (omega arith) in
      let open_buf : (len + length part == 8) ≡ false = ground (arith, short) in
      let room : len + length part ≤ length buf = omega (arith, size, short) in
      (
        CdcPartitionerHasher.feeding (len + length part) (copy_from_slice len part buf),
        simp (copied, all, open_buf),
        (
          omega (arith, e, length-append key part),
          short,
          length-copy_from_slice len part buf room ∙ size,
          take-copy_from_slice len part buf room ∙ ap (λ k. k ++ part) same,
        ),
      )

  write_filled :
      (len : ℕ) (buf key part : List ℕ)
      → Feeds (CdcPartitionerHasher.feeding len buf) key
      → 8 ≤ len + length part
      → (h' : CdcPartitionerHasher) × (cdc_write b (CdcPartitionerHasher.feeding len buf) part
          ≡ some h')
        × Feeds h' (key ++ part)
  unfolding Feeds cdc_write
  write_filled len buf key part (e, lt, size, same) long =
      let copied : min (length part) (8 - len) ≡ 8 - len = omega (arith, long) in
      let src : List ℕ = take (8 - len) part in
      let src_len : length src ≡ 8 - len = omega (arith, length-take (8 - len) part, long) in
      let room : len + length src ≤ length buf = omega (arith, size, src_len, lt) in
      let all : len + length src ≡ 8 = omega (arith, src_len, lt) in
      let sum : len + (8 - len) ≡ 8 = omega (arith, lt) in
      let filled : List ℕ = copy_from_slice len src buf in
      let filled_len : length filled ≡ 8 = length-copy_from_slice len src buf room ∙ size in
      let filled_is : filled ≡ take 8 (key ++ part) =
        sym (take_all 8 filled (omega (arith, filled_len)))
        ∙ subst (λ n. take n filled ≡ take len buf ++ src) all
            (take-copy_from_slice len src buf room)
        ∙ ap (λ k. k ++ src) same
        ∙ ap (λ n. key ++ take n part) (omega (arith, e))
        ∙ sym (take-append 8 key part (omega (arith, e, lt))) in
      (
        CdcPartitionerHasher.computed (token_new (as_i64 (w.word filled))),
        simp (copied, sum, full_word filled filled_len),
        (
          omega (arith, e, length-append key part, long),
          ap (λ k. token_new (as_i64 (w.word k))) filled_is,
        ),
      )

  cdc_write-Feeds :
      (h : CdcPartitionerHasher) (key part : List ℕ)
      → Feeds h key
      → (h' : CdcPartitionerHasher) × (cdc_write b h part ≡ some h') × Feeds h' (key ++ part)
  unfolding Feeds cdc_write
  cdc_write-Feeds (CdcPartitionerHasher.feeding len buf) key part m =
      elim (Bool-cases (ltb (len + length part) 8)) [
        | inl e ↦ write_open len buf key part m (ground (arith, e))
        | inr e ↦ write_filled len buf key part m (ground (arith, e))
      ]
  cdc_write-Feeds (CdcPartitionerHasher.computed token) key part (long, e) = (
    CdcPartitionerHasher.computed token,
    refl,
    (
      omega (arith, long, length-append key part),
      e ∙ ap (λ k. token_new (as_i64 (w.word k))) (sym (take-append_short 8 key part long)),
    ),
  )

  parts-Feeds :
      (parts : List (List ℕ)) (h : CdcPartitionerHasher) (key : List ℕ)
      → Feeds h key
      → (h' : CdcPartitionerHasher) × (cdc_write_parts b h parts ≡ some h')
        × Feeds h' (key ++ concat parts)
  unfolding cdc_write_parts
  parts-Feeds [] h key m = (h, refl, subst (Feeds h) (sym (append-nil key)) m)
  parts-Feeds (part ∷ parts) h key m =
      let (h1, e1, m1) = cdc_write-Feeds h key part m in
      let (h2, e2, m2) = parts-Feeds parts h1 (key ++ part) m1 in
      (h2, rw e1 e2, subst (Feeds h2) (append_assoc key part (concat parts)) m2)

  cdc_finish_lem :
      (h : CdcPartitionerHasher) (key : List ℕ) → Feeds h key → cdc_finish h ≡ cdc_token key
  unfolding Feeds cdc_finish cdc_token
  cdc_finish_lem (CdcPartitionerHasher.feeding len buf) key (e, lt, size, same) =
      let short : ltb (length key) 8 ≡ true = ground (arith, e, lt) in simp short
  cdc_finish_lem (CdcPartitionerHasher.computed token) key (long, e) =
      let enough : ltb (length key) 8 ≡ false = ground (arith, long) in simp (enough, e)

  -- However a key is split into parts, writing them to a new CDC hasher does not panic, and the
  -- token is the first word of the key, and the invalid token if the key has fewer than 8 bytes.
  pub cdc_write_parts-cdc_token :
      (parts : List (List ℕ))
      → (h : CdcPartitionerHasher) × (cdc_write_parts b cdc_build_hasher parts ≡ some h)
        × (cdc_finish h ≡ cdc_token (concat parts))
  cdc_write_parts-cdc_token parts =
      let (h, e, m) = parts-Feeds parts cdc_build_hasher [] start-Feeds in
      (h, e, cdc_finish_lem h (concat parts) m)
