-- ===== src/Policies/Timestamps.antt =====
-- `MonotonicTimestampGenerator` of scylla/src/policies/timestamp_generator.rs. A timestamp is an
-- `i64`; a panic is `none`, also of an arithmetic operation that leaves that range.
pub mod Monotone
pub mod Examples
use scylla_rust_driver.Prelude.{
  ℕ, ◌+◌, ◌-◌, ◌/◌, ◌%◌, ◌^◌, ◌≡◌, Bool, true, false, Option, none, some, List, [], ◌∷◌,
  if◌then◌else◌, ltb, leb, ◌&&◌, FunMap, empty_map, insert_map, remove_map,
}
use mathlib.Core.Option
use scylla_rust_driver.Prelude.Int.{ℤ, pos, negsuc, pos_part, neg_part, sub_ℕ, ltb_ℤ, leb_ℤ}

-- A `Duration` is its nanoseconds, an `Instant` a number of the type that `checked_add` is about.
pub record MonotonicTimestampGeneratorWarningsCfg : Type 0 where
  pub warning_threshold : ℕ
  pub warning_interval : ℕ

pub record MonotonicTimestampGenerator : Type 0 where
  pub last : ℤ
  pub last_warning : ℕ
  pub config : Option MonotonicTimestampGeneratorWarningsCfg

unfoldable pub new : (now : ℕ) → MonotonicTimestampGenerator
new now = record {
  last = pos 0;
  last_warning = now;
  config = some (record { warning_threshold = 1_000_000_000; warning_interval = 1_000_000_000 });
}

unfoldable pub with_warning_times :
    ℕ → ℕ → MonotonicTimestampGenerator → MonotonicTimestampGenerator
with_warning_times warning_threshold warning_interval g = record g {
  config =
      some (record { warning_threshold = warning_threshold; warning_interval = warning_interval });
}

unfoldable pub without_warnings : MonotonicTimestampGenerator → MonotonicTimestampGenerator
without_warnings g = record g { config = none }

-- A result within the range of `i64`.
unfoldable pub checked_i64 : ℤ → Option ℤ
checked_i64 z = if leb_ℤ (negsuc (2 ^ 63 - 1)) z && leb_ℤ z (pos (2 ^ 63 - 1)) then some z else none

-- `last + 1` and `last - u_cur`.
abbrev pub suc_ℤ : ℤ → ℤ
suc_ℤ z = sub_ℕ (pos_part z + 1) (neg_part z)

abbrev pub sub_ℤ : ℤ → ℤ → ℤ
sub_ℤ a b = sub_ℕ (pos_part a + neg_part b) (pos_part b + neg_part a)

unfoldable pub increment : ℤ → Option ℤ
increment last = checked_i64 (suc_ℤ last)

-- The whole microseconds of a `Duration`, and `as i64`, which keeps the low 64 bits.
abbrev pub as_micros : ℕ → ℕ
as_micros duration = duration / 1000

unfoldable pub micros_as_i64 : ℕ → ℤ
micros_as_i64 n =
    if ltb (n % 2 ^ 64) (2 ^ 63) then pos (n % 2 ^ 64) else negsuc (2 ^ 64 - 1 - n % 2 ^ 64)

-- The incremented timestamp, with a generator that was checked.
abbrev pub increment_with :
    ℤ → Option MonotonicTimestampGenerator → Option (ℤ × MonotonicTimestampGenerator)
increment_with last none = none
increment_with last (some g) = elim (increment last) [ none ↦ none | some t ↦ some (t, g) ]

-- `Instant::checked_add` is a parameter: how far an `Instant` reaches depends on the platform.
module _ (checked_add : ℕ → ℕ → Option ℕ) where
  -- The warning that is due, or not yet; the log line is left out.
  unfoldable pub warn_again :
      (now : ℕ)
      → MonotonicTimestampGeneratorWarningsCfg
      → MonotonicTimestampGenerator
      → Option MonotonicTimestampGenerator
  warn_again now cfg g = elim (checked_add g.last_warning cfg.warning_interval) [
    | none ↦ none
    | some due ↦ some (if leb due now then record g { last_warning = now } else g)
  ]

  -- What is done about a clock that is behind the last timestamp.
  unfoldable pub check_skew :
      (now : ℕ) (u_cur last : ℤ) → MonotonicTimestampGenerator → Option MonotonicTimestampGenerator
  check_skew now u_cur last g = elim g.config [
    | none ↦ some g
    | some cfg ↦ elim (checked_i64 (sub_ℤ last u_cur)) [
      | none ↦ none
      | some skew ↦
          if ltb_ℤ (micros_as_i64 (as_micros cfg.warning_threshold)) skew
          then warn_again now cfg g
          else some g
    ]
  ]

  -- `clock` is the time since the epoch, or `none` before the epoch.
  unfoldable pub compute_next :
      (clock : Option ℕ) (now : ℕ) (last : ℤ)
      → MonotonicTimestampGenerator
      → Option (ℤ × MonotonicTimestampGenerator)
  compute_next none now last g = increment_with last (some g)
  compute_next (some cur_time) now last g =
      let u_cur = micros_as_i64 (as_micros cur_time) in
      if ltb_ℤ last u_cur
      then some (u_cur, g)
      else increment_with last (check_skew now u_cur last g)

-- The atomic exchange: the generator afterwards, and whether it was `Ok`.
unfoldable pub compare_exchange :
    (current value : ℤ) → MonotonicTimestampGenerator → MonotonicTimestampGenerator × Bool
compare_exchange current value g =
    if leb_ℤ g.last current && leb_ℤ current g.last
    then (record g { last = value }, true)
    else (g, false)

-- The threads that share a generator: what each one in `next_timestamp` has loaded, and the
-- timestamps that were returned, the newest first.
pub record Threads : Type 0 where
  pub generator : MonotonicTimestampGenerator
  pub loaded : FunMap ℤ
  pub returned : List ℤ

unfoldable pub start : MonotonicTimestampGenerator → Threads
start g = record { generator = g; loaded = empty_map; returned = [] }

-- The first line of the loop.
unfoldable pub load : (thread : ℕ) → Threads → Threads
load thread s = record s { loaded = insert_map thread s.generator.last s.loaded }

-- The rest of the loop's body. `compute_next` does not read the shared `last`, so the exchange may
-- stand in the same step. `none` is a panic, or a thread that has not loaded.
abbrev pub exchange :
    (thread : ℕ) → ℤ → Threads → Option (ℤ × MonotonicTimestampGenerator) → Option Threads
exchange thread last s none = none
exchange thread last s (some (cur, g)) =
    let (g', success) = compare_exchange last cur g in
    some (record {
      generator = g';
      loaded = remove_map thread s.loaded;
      returned = if success then cur ∷ s.returned else s.returned;
    })

abbrev exchanged : ℤ → ℤ × MonotonicTimestampGenerator → ℤ × MonotonicTimestampGenerator
exchanged last (cur, g) = (cur, (compare_exchange last cur g).0)

module _ (checked_add : ℕ → ℕ → Option ℕ) where
  unfoldable pub attempt : (clock : Option ℕ) (now thread : ℕ) → Threads → Option Threads
  attempt clock now thread s = elim (s.loaded thread) [
    | none ↦ none
    | some last ↦ exchange thread last s (compute_next checked_add clock now last s.generator)
  ]

  -- A call that no other thread disturbs.
  unfoldable pub next_timestamp :
      (clock : Option ℕ) (now : ℕ)
      → MonotonicTimestampGenerator
      → Option (ℤ × MonotonicTimestampGenerator)
  next_timestamp clock now g =
      Option.map (exchanged g.last) (compute_next checked_add clock now g.last g)
