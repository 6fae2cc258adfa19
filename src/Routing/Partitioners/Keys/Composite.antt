-- ===== src/Routing/Partitioners/Keys/Composite.antt =====
-- The token of a serialized partition key is that of its encoding.
use mathlib.Core.Path.{ap, subst, ◌∙◌}
use scylla_rust_driver.Prelude.{
  ℕ, ◌+◌, ◌/◌, ◌%◌, ◌^◌, ◌<◌, ◌≡◌, refl, sym, true, false, Option, none, some, List, [], ◌∷◌, ◌++◌,
  if◌then◌else◌, ltb, length, arith, Bool-cases, inl, inr, length-append, Result, ok, err,
}
use scylla_rust_driver.Prelude.Options.{◌>>=◌}
use scylla_rust_driver.Frame.Wire.{RawValue}
use scylla_rust_driver.Routing.Sharding.{Token}
use scylla_rust_driver.Routing.Partitioners.{
  Buf, Murmur3PartitionerHasher, murmur3_build_hasher, murmur3_finish,
}
use scylla_rust_driver.Routing.Partitioners.Feeding.{
  ReadsWords, Fed, nothing_fed, feed, feed-append, feed_total, fed_token,
}
use scylla_rust_driver.Routing.Partitioners.Midway.{Holds, IsFed, feed-IsFed}
use scylla_rust_driver.Routing.Partitioners.Written.{murmur3_write-Holds}
use scylla_rust_driver.Routing.Partitioners.Parts.{murmur3_finish-fed_token, start-Holds}
use scylla_rust_driver.Routing.Partitioners.Keys.{
  PartitionerName, PartitionerHasherAny, TokenCalculationError, build_hasher, finish, write,
  write_single, write_component, write_components, calculate_token_for_partition_key,
}

-- One of several values: its length in two bytes, the value, and a zero.
abbrev pub component_bytes : List ℕ → List ℕ
component_bytes val = (length val / 256 ∷ length val % 256 ∷ []) ++ (val ++ 0 ∷ [])

abbrev pub composite_bytes : List RawValue → List ℕ
composite_bytes [] = []
composite_bytes (RawValue.value val ∷ values) = component_bytes val ++ composite_bytes values
composite_bytes (_ ∷ values) = composite_bytes values

abbrev pub single_bytes : RawValue → List ℕ
single_bytes (RawValue.value val) = val
single_bytes _ = []

-- The encoding of a key: the bytes of a single value, and the components of several.
abbrev pub key_bytes : List RawValue → List ℕ
key_bytes (val ∷ []) = single_bytes val
key_bytes values = composite_bytes values

abbrev pub first_too_long : List RawValue → Option ℕ
first_too_long [] = none
first_too_long (RawValue.value val ∷ values) =
    if ltb (length val) (2 ^ 16) then first_too_long values else some (length val)
first_too_long (_ ∷ values) = first_too_long values

-- The length of the first of several values that does not fit into two bytes.
abbrev pub too_long : List RawValue → Option ℕ
too_long (val ∷ []) = none
too_long values = first_too_long values

module _ (b : Buf) (w : ReadsWords b) where
  -- The token of a key, or the error on a value too long.
  abbrev pub key_token : Option ℕ → List RawValue → Result TokenCalculationError Token
  key_token (some n) values = err (TokenCalculationError.value_too_long n)
  key_token none values = ok (fed_token (feed b w nothing_fed (key_bytes values)))

  abbrev composite_token : Option ℕ → List RawValue → Result TokenCalculationError Token
  composite_token (some n) values = err (TokenCalculationError.value_too_long n)
  composite_token none values = ok (fed_token (feed b w nothing_fed (composite_bytes values)))

  composite_token-key_token :
      (n : Option ℕ) (v1 v2 : RawValue) (values : List RawValue)
      → composite_token n (v1 ∷ v2 ∷ values) ≡ key_token n (v1 ∷ v2 ∷ values)
  composite_token-key_token (some n) v1 v2 values = refl
  composite_token-key_token none v1 v2 values = refl

  -- A hasher that holds what was fed.
  abbrev Reaches : Option (Result TokenCalculationError PartitionerHasherAny) → Fed → Type 0
  Reaches m f =
      (h : Murmur3PartitionerHasher) × (m ≡ some (ok (PartitionerHasherAny.murmur3 h)))
      × Holds h f
      × IsFed f

  abbrev Loops :
      Option ℕ → Option (Result TokenCalculationError PartitionerHasherAny) → Fed → Type 0
  Loops (some n) m f = m ≡ some (err (TokenCalculationError.value_too_long n))
  Loops none m f = Reaches m f

  -- A write of fewer bytes than make the length overflow.
  write_fed :
      (h : Murmur3PartitionerHasher) (f : Fed) (part : List ℕ)
      → Holds h f
      → IsFed f
      → f.total + length part < 2 ^ 64
      → (h' : Murmur3PartitionerHasher) × (write b (PartitionerHasherAny.murmur3 h) part
          ≡ some (PartitionerHasherAny.murmur3 h'))
        × Holds h' (feed b w f part)
        × IsFed (feed b w f part)
  unfolding write
  write_fed h f part m v k =
      let (h', e, m') = murmur3_write-Holds b w h f part m v k in
      (h', simp e, m', feed-IsFed b w f part v)

  component_fed :
      (h : Murmur3PartitionerHasher) (f : Fed) (val : List ℕ)
      → Holds h f
      → IsFed f
      → ltb (length val) (2 ^ 16) ≡ true
      → f.total + length (component_bytes val) < 2 ^ 64
      → Reaches
          (write_component b (PartitionerHasherAny.murmur3 h) val)
          (feed b w f (component_bytes val))
  unfolding write_component
  component_fed h f val m v fits k =
      let len : List ℕ = length val / 256 ∷ length val % 256 ∷ [] in
      let f1 : Fed = feed b w f len in
      let f2 : Fed = feed b w f1 val in
      let long = length-append len (val ++ 0 ∷ []) in
      let long' = length-append val (0 ∷ []) in
      let t1 = feed_total b w f len in
      let t2 = feed_total b w f1 val in
      let (h1, e1, m1, v1) = write_fed h f len m v (omega (arith, k, long, long')) in
      let (h2, e2, m2, v2) = write_fed h1 f1 val m1 v1 (omega (arith, k, long, long', t1)) in
      let (h3, e3, m3, v3) =
        write_fed h2 f2 (0 ∷ []) m2 v2 (omega (arith, k, long, long', t1, t2)) in
      let joined : feed b w f2 (0 ∷ []) ≡ feed b w f (component_bytes val) =
        sym (feed-append b w f1 val (0 ∷ [])) ∙ sym (feed-append b w f len (val ++ 0 ∷ [])) in
      (h3, simp (fits, e1, e2, e3), subst (Holds h3) joined m3, subst IsFed joined v3)

  component_too_long :
      (h : PartitionerHasherAny) (val : List ℕ)
      → ltb (length val) (2 ^ 16) ≡ false
      → write_component b h val ≡ some (err (TokenCalculationError.value_too_long (length val)))
  unfolding write_component
  component_too_long h val e = simp e

  components_loop :
      (values : List RawValue) (h : Murmur3PartitionerHasher) (f : Fed)
      → Holds h f
      → IsFed f
      → f.total + length (composite_bytes values) < 2 ^ 64
      → Loops
          (first_too_long values)
          (write_components b (PartitionerHasherAny.murmur3 h) values)
          (feed b w f (composite_bytes values))
  unfolding write_components
  components_loop [] h f m v k = (h, refl, unfold feed in m, unfold feed in v)
  components_loop (RawValue.null ∷ values) h f m v k = components_loop values h f m v k
  components_loop (RawValue.unset ∷ values) h f m v k = components_loop values h f m v k
  components_loop (RawValue.value val ∷ values) h f m v k =
      elim (Bool-cases (ltb (length val) (2 ^ 16))) [
        | inl fits ↦
            let enc : List ℕ = component_bytes val in
            let long = length-append enc (composite_bytes values) in
            let total = feed_total b w f enc in
            let (h1, e1, m1, v1) = component_fed h f val m v fits (omega (arith, k, long)) in
            let rest =
              components_loop values h1 (feed b w f enc) m1 v1 (omega (arith, k, long, total)) in
            rw (fits, e1)
              (subst
                (Loops (first_too_long values)
                  (write_components b (PartitionerHasherAny.murmur3 h1) values))
                (sym (feed-append b w f enc (composite_bytes values))) rest)
        | inr e ↦ rw (e, component_too_long (PartitionerHasherAny.murmur3 h) val e) refl
      ]

  single_token :
      (val : List ℕ)
      → length val < 2 ^ 64
      → calculate_token_for_partition_key b (RawValue.value val ∷ []) PartitionerName.murmur3
        ≡ some (ok (fed_token (feed b w nothing_fed val)))
  unfolding calculate_token_for_partition_key write_single build_hasher finish
  single_token val k =
      let (h, e, m, v) =
        write_fed murmur3_build_hasher nothing_fed val start-Holds (omega arith)
          (omega (arith, k)) in
      rw e (ap (λ t. some (ok t)) (murmur3_finish-fed_token h (feed b w nothing_fed val) m v))

  null_token : murmur3_finish murmur3_build_hasher ≡ fed_token (feed b w nothing_fed [])
  unfolding feed
  null_token = murmur3_finish-fed_token murmur3_build_hasher nothing_fed start-Holds (omega arith)

  -- The end of a key of several values.
  finish_all :
      (n : Option ℕ) (values : List RawValue)
      → Loops n
          (write_components b (build_hasher PartitionerName.murmur3) values)
          (feed b w nothing_fed (composite_bytes values))
      → (write_components b (build_hasher PartitionerName.murmur3) values >>= λ r. elim r [
        | err e ↦ some (err e)
        | ok h ↦ some (ok (finish h))
      ])
        ≡ some (composite_token n values)
  unfolding finish
  finish_all (some n) values e = rw e refl
  finish_all none values (h, e, m, v) = rw e (
      ap (λ t. some (ok t))
        (murmur3_finish-fed_token h (feed b w nothing_fed (composite_bytes values)) m v))

  several :
      (values : List RawValue)
      → length (composite_bytes values) < 2 ^ 64
      → Loops
          (first_too_long values)
          (write_components b (build_hasher PartitionerName.murmur3) values)
          (feed b w nothing_fed (composite_bytes values))
  unfolding build_hasher
  several values k =
      components_loop values murmur3_build_hasher nothing_fed start-Holds (omega arith)
        (omega (arith, k))

  -- For the Murmur3 partitioner, a key whose encoding has fewer than 2^64 bytes has the token of
  -- its encoding: the bytes of a single value, else each value that is neither null nor unset with
  -- its length in two bytes before it and a zero behind it. One of several values that has 2^16
  -- bytes or more is an error, which names the length of the first such value. Nothing panics.
  pub calculate_token_for_partition_key-key_token :
      (values : List RawValue)
      → length (key_bytes values) < 2 ^ 64
      → calculate_token_for_partition_key b values PartitionerName.murmur3
        ≡ some (key_token (too_long values) values)
  unfolding calculate_token_for_partition_key write_single build_hasher finish
  calculate_token_for_partition_key-key_token [] k = finish_all none [] (several [] k)
  calculate_token_for_partition_key-key_token (RawValue.value val ∷ []) k = single_token val k
  calculate_token_for_partition_key-key_token (RawValue.null ∷ []) k =
      ap (λ t. some (ok t)) null_token
  calculate_token_for_partition_key-key_token (RawValue.unset ∷ []) k =
      ap (λ t. some (ok t)) null_token
  calculate_token_for_partition_key-key_token (v1 ∷ v2 ∷ values) k =
      finish_all (first_too_long (v1 ∷ v2 ∷ values)) (v1 ∷ v2 ∷ values)
        (several (v1 ∷ v2 ∷ values) k)
      ∙ ap some (composite_token-key_token (first_too_long (v1 ∷ v2 ∷ values)) v1 v2 values)
