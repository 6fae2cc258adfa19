-- ===== src/Policies/Timestamps/Monotone.antt =====
-- The timestamps ascend, however the calls of the threads interleave.
use scylla_rust_driver.Prelude.{
  ℕ, ◌-◌, ◌^◌, ◌<◌, ◌≡◌, ◌≢◌, ◌⊎◌, refl, sym, true, false, Option, none, some, List, [], ◌∷◌, ◌&&◌,
  arith, inl, inr, Bool-cases, Option-cases, ltb→lt,
}
use mathlib.Core.Path.{subst}
use scylla_rust_driver.Prelude.Int.{ℤ, pos, ltb_ℤ, leb_ℤ, ◌<ℤ◌, ◌≤ℤ◌}
use scylla_rust_driver.Policies.Timestamps.{
  MonotonicTimestampGenerator, MonotonicTimestampGeneratorWarningsCfg, Threads, checked_i64, suc_ℤ,
  increment, as_micros, micros_as_i64, warn_again, check_skew, increment_with, compute_next,
  compare_exchange, start, load, exchange, exchanged, attempt, next_timestamp,
}

-- Every element is below the one before it, and the first below the bound.
abbrev pub Descends : ℤ → List ℤ → Type 0
Descends bound [] = Unit
Descends bound (t ∷ ts) = (t <ℤ bound) × Descends t ts

Descends-le : (a b : ℤ) (ts : List ℤ) → a ≤ℤ b → Descends a ts → Descends b ts
Descends-le a b [] h d = tt
Descends-le a b (t ∷ ts) h d = (omega (arith, d.0), d.1)

lt_suc : (a : ℤ) → a <ℤ suc_ℤ a
lt_suc a = ground arith

suc_le : (a b : ℤ) → a <ℤ b → suc_ℤ a ≤ℤ b
suc_le a b h = ground arith

suc_mono : (a b : ℤ) → a ≤ℤ b → suc_ℤ a ≤ℤ suc_ℤ b
suc_mono a b h = ground arith

increment_above : (last t : ℤ) → increment last ≡ some t → last <ℤ t
unfolding increment checked_i64
increment_above last t e = ground (arith, lt_suc last)

-- What a computed timestamp keeps: it is above the last one, and the shared `last` is left alone.
abbrev Computed :
    ℤ → MonotonicTimestampGenerator → Option (ℤ × MonotonicTimestampGenerator) → Type 0
Computed last g none = Unit
Computed last g (some (t, g')) = (g'.last ≡ g.last) × (last <ℤ t)

abbrev KeepsLast : MonotonicTimestampGenerator → Option MonotonicTimestampGenerator → Type 0
KeepsLast g none = Unit
KeepsLast g (some g') = g'.last ≡ g.last

increment_with-Computed :
    (last : ℤ) (g : MonotonicTimestampGenerator) (o : Option MonotonicTimestampGenerator)
    → KeepsLast g o
    → Computed last g (increment_with last o)
increment_with-Computed last g none k = tt
increment_with-Computed last g (some g') k = elim (Option-cases (increment last)) [
  | inl e ↦ rw (e, Computed) tt
  | inr (t, e) ↦ rw (e, Computed) (k, increment_above last t e)
]

-- The invariant of the threads.
abbrev IsDescending : Threads → Type 0
IsDescending s = Descends (suc_ℤ s.generator.last) s.returned

abbrev Descended : Option Threads → Type 0
Descended none = Unit
Descended (some s) = IsDescending s

exchange-Descended :
    (thread : ℕ) (last : ℤ) (s : Threads) (r : Option (ℤ × MonotonicTimestampGenerator))
    → Computed last s.generator r
    → IsDescending s
    → Descended (exchange thread last s r)
unfolding compare_exchange
exchange-Descended thread last s none c d = tt
exchange-Descended thread last s (some (cur, g)) c d =
    elim (Bool-cases (leb_ℤ g.last last && leb_ℤ last g.last)) [
      | inl same ↦
          let e : s.generator.last ≤ℤ last = ground (arith, same, c.0) in
          let next : last <ℤ cur = c.1 in
          simp same (
            lt_suc cur,
            Descends-le (suc_ℤ s.generator.last) cur s.returned
                (suc_le s.generator.last cur (omega (arith, e, next))) d,
          )
      | inr other ↦ simp other (subst (λ z. Descends (suc_ℤ z) s.returned) (sym c.0) d)
    ]

module _ (checked_add : ℕ → ℕ → Option ℕ) where
  check_skew-KeepsLast :
      (now : ℕ) (u last : ℤ) (g : MonotonicTimestampGenerator)
      → KeepsLast g (check_skew checked_add now u last g)
  unfolding check_skew warn_again
  check_skew-KeepsLast now u last g = ground arith

  compute_next-Computed :
      (clock : Option ℕ) (now : ℕ) (last : ℤ) (g : MonotonicTimestampGenerator)
      → Computed last g (compute_next checked_add clock now last g)
  unfolding compute_next
  compute_next-Computed none now last g = increment_with-Computed last g (some g) refl
  compute_next-Computed (some d) now last g =
      let u = micros_as_i64 (as_micros d) in
      elim (Bool-cases (ltb_ℤ last u)) [
        | inl e ↦ rw (e, Computed) (refl, ltb→lt _ _ e)
        | inr e ↦
            rw (e, Computed)
              (increment_with-Computed last g (check_skew checked_add now u last g)
                (check_skew-KeepsLast now u last g))
      ]

  attempt-Descended :
      (clock : Option ℕ) (now thread : ℕ) (s : Threads)
      → IsDescending s
      → Descended (attempt checked_add clock now thread s)
  unfolding attempt
  attempt-Descended clock now thread s d = elim (Option-cases (s.loaded thread)) [
    | inl e ↦ rw (e, attempt) tt
    | inr (last, e) ↦
        rw (e, attempt)
          (exchange-Descended thread last s (compute_next checked_add clock now last s.generator)
            (compute_next-Computed clock now last s.generator) d)
  ]

  pub data Step : Threads → Threads → Type 0 where
    loads : (thread : ℕ) (s : Threads) → Step s (load thread s)
    attempts :
        (clock : Option ℕ) (now thread : ℕ) (s s' : Threads)
        → attempt checked_add clock now thread s ≡ some s'
        → Step s s'

  pub data Reach : Threads → Threads → Type 0 where
    here : (s : Threads) → Reach s s
    then : {s t u : Threads} → Reach s t → Step t u → Reach s u

  Step-IsDescending : {s t : Threads} → Step s t → IsDescending s → IsDescending t
  unfolding load
  Step-IsDescending (Step.loads thread s) d = d
  Step-IsDescending (Step.attempts clock now thread s s' e) d =
      subst Descended e (attempt-Descended clock now thread s d)

  -- However the calls of several threads on a generator interleave, every timestamp that is
  -- returned is above all those returned before it, whatever the clock shows, also if it wraps as
  -- an `i64`. A call that panics returns none, and ends its thread.
  pub Reach-IsDescending :
      (g : MonotonicTimestampGenerator) (s : Threads)
      → Reach (start g) s
      → Descends (suc_ℤ s.generator.last) s.returned
  unfolding start
  Reach-IsDescending g s (Reach.here _) = tt
  Reach-IsDescending g s (Reach.then r k) = Step-IsDescending k (Reach-IsDescending g _ r)

  -- A clock within the range of `i64` is read as it shows.
  micros_exact : (n : ℕ) → n < 2 ^ 63 → micros_as_i64 n ≡ pos n
  unfolding micros_as_i64
  micros_exact n h = ground arith

  -- If the clock and the last timestamp are within range, the call does not panic in the check of
  -- the skew, unless the warning does.
  check_skew_ends :
      (now u : ℕ) (last : ℤ) (g : MonotonicTimestampGenerator)
      → pos u ≤ℤ last
      → last <ℤ pos (2 ^ 63 - 1)
      → ((cfg : MonotonicTimestampGeneratorWarningsCfg)
          → g.config ≡ some cfg
          → checked_add g.last_warning cfg.warning_interval ≢ none)
      → check_skew checked_add now (pos u) last g ≢ none
  unfolding check_skew warn_again checked_i64
  check_skew_ends now u last g low high fits = elim (Option-cases g.config) [
    | inl e ↦ rw e (ground arith)
    | inr (cfg, e) ↦ rw e (ground (arith, fits cfg e))
  ]

  -- What a call that no other thread disturbs gives.
  abbrev pub Advances : ℕ → MonotonicTimestampGenerator → ℤ → MonotonicTimestampGenerator → Type 0
  Advances clock g t g' =
      (g'.last ≡ t) × (g.last <ℤ t) × (pos clock ≤ℤ t) × ((t ≡ pos clock) ⊎ (t ≡ suc_ℤ g.last))

  exchanged_last :
      (last t : ℤ) (g : MonotonicTimestampGenerator)
      → g.last ≡ last
      → (exchanged last (t, g)).1.last ≡ t
  unfolding compare_exchange
  exchanged_last last t g e =
      let same : (leb_ℤ g.last last && leb_ℤ last g.last) ≡ true = ground (arith, e) in simp same

  suc_increment :
      (u : ℕ) (last : ℤ)
      → pos u ≤ℤ last
      → last <ℤ pos (2 ^ 63 - 1)
      → increment last ≡ some (suc_ℤ last)
  unfolding increment checked_i64
  suc_increment u last low high = ground arith

  compute_behind :
      (d now : ℕ) (g g' : MonotonicTimestampGenerator)
      → as_micros d < 2 ^ 63
      → ltb_ℤ g.last (pos (as_micros d)) ≡ false
      → pos (as_micros d) ≤ℤ g.last
      → g.last <ℤ pos (2 ^ 63 - 1)
      → check_skew checked_add now (pos (as_micros d)) g.last g ≡ some g'
      → compute_next checked_add (some d) now g.last g ≡ some (suc_ℤ g.last, g')
  unfolding compute_next
  compute_behind d now g g' fits behind low high e =
      let next : increment g.last ≡ some (suc_ℤ g.last) =
        suc_increment (as_micros d) g.last low high in
      rw (micros_exact (as_micros d) fits, behind, e, increment_with, next) refl

  -- If the clock is within the range of `i64`, the last timestamp is below the greatest `i64`, and
  -- the due time of the next warning can be computed, a call that no other thread disturbs does not
  -- panic: it returns the clock or the last timestamp plus one, above the last one and not below
  -- the clock, and makes it the last.
  pub next_timestamp-lt :
      (d now : ℕ) (g : MonotonicTimestampGenerator)
      → as_micros d < 2 ^ 63
      → g.last <ℤ pos (2 ^ 63 - 1)
      → ((cfg : MonotonicTimestampGeneratorWarningsCfg)
          → g.config ≡ some cfg
          → checked_add g.last_warning cfg.warning_interval ≢ none)
      → (t : ℤ) × (g' : MonotonicTimestampGenerator) × (next_timestamp checked_add (some d) now g
          ≡ some (t, g'))
        × Advances (as_micros d) g t g'
  unfolding next_timestamp compute_next
  next_timestamp-lt d now g small high fits =
      let u = as_micros d in
      elim (Bool-cases (ltb_ℤ g.last (pos u))) [
        | inl ahead ↦ (
          pos u,
          (exchanged g.last (pos u, g)).1,
          rw (micros_exact u small, ahead) refl,
          (exchanged_last g.last (pos u) g refl, ltb→lt _ _ ahead, omega arith, inl refl),
        )
        | inr behind ↦
            let low : pos u ≤ℤ g.last = ground (arith, behind) in
            elim (Option-cases (check_skew checked_add now (pos u) g.last g)) [
              | inl e ↦ absurd (check_skew_ends now u g.last g low high fits e)
              | inr (g', e) ↦ (
                suc_ℤ g.last,
                (exchanged g.last (suc_ℤ g.last, g')).1,
                rw (compute_behind d now g g' small behind low high e) refl,
                (
                  exchanged_last g.last (suc_ℤ g.last) g'
                      (subst (KeepsLast g) e (check_skew-KeepsLast now (pos u) g.last g)),
                  lt_suc g.last,
                  omega (arith, low, lt_suc g.last),
                  inr refl,
                ),
              )
            ]
      ]
