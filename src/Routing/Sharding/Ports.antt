-- ===== src/Routing/Sharding/Ports.antt =====
-- The source ports that lead to a shard.
use scylla_rust_driver.Prelude.{
  ℕ, zero, suc, ◌+◌, ◌-◌, ◌*◌, ◌/◌, ◌%◌, ◌^◌, ◌≤◌, ◌<◌, ◌≡◌, ◌⊎◌, refl, Bool, true, false, ◌&&◌,
  Option, none, some, List, [], ◌∷◌, ◌++◌, if◌then◌else◌, ltb, leb, arith, ◌==◌, inl, inr,
  Bool-cases, lt→ltb, ltb→lt, ltb→le, sym, ok, err,
}
use mathlib.Core.Path.{ap, ◌∙◌}
use native.Mathlib.Nat.{
  mul-le-mul_left, mul-le-mul_right, mul-suc, mod-eq_of_lt, mul_comm, add-mod_right, div-add-mod,
  mul-add-mod_self_right, div-mul-le_self, lt-div-mul-add,
}
use scylla_rust_driver.Routing.Sharding.{
  Sharder, ShardAwarePortRange, InvalidShardAwarePortRange, range_new, add_u16, sub_u16,
  draw_source_port, stepped, step_by, div_ceil, iter_source_ports, shard_of_source_port,
}
use scylla_rust_driver.Routing.Sharding.Tokens.{IsShardCount}

-- How often a port is in a list.
unfoldable pub count : ℕ → List ℕ → ℕ
count p [] = 0
count p (x ∷ xs) = (if x == p then 1 else 0) + count p xs

pub count-append : (p : ℕ) (xs ys : List ℕ) → count p (xs ++ ys) ≡ count p xs + count p ys
unfolding count
count-append p [] ys = omega arith
count-append p (x ∷ xs) ys = ground (arith, count-append p xs ys)

-- The numbers of the interval that are congruent to its start.
abbrev on_steps : ℕ → ℕ → ℕ → ℕ → Bool
on_steps p from until step = leb from p && ltb p until && (p % step == from % step)

-- Between two steps no number is congruent to the first.
between_steps :
    (p from step : ℕ) → 0 < step → from ≤ p → p < from + step → p % step ≡ from % step → p ≡ from
between_steps p from step h a b e =
    let q = p / step in
    let r = from / step in
    let x : step * q + p % step ≡ p = div-add-mod p step in
    let y : step * r + from % step ≡ from = div-add-mod from step in
    elim (Bool-cases (ltb r q)) [
      | inl above ↦
          let z : step * suc r ≤ step * q = mul-le-mul_left step (ltb→lt r q above) in
          let w : step * suc r ≡ step * r + step = mul-suc step r in
          absurd (omega (arith, x, y, z, w, e))
      | inr other ↦
          let z : step * q ≤ step * r = mul-le-mul_left step (ltb→le r q other) in
          omega (arith, x, y, z, e)
    ]

on_steps_next :
    (p from until step : ℕ)
    → 0 < step
    → from < until
    → (if on_steps p from until step then 1 else 0)
      ≡ (if from == p then 1 else 0) + (if on_steps p (from + step) until step then 1 else 0)
on_steps_next p from until step h l =
    ground (arith, between_steps p from step, add-mod_right from step)

count-stepped :
    (p fuel from until step : ℕ)
    → 0 < step
    → until ≤ fuel + from
    → count p (stepped fuel from until step) ≡ (if on_steps p from until step then 1 else 0)
unfolding count stepped
count-stepped p zero from until step h k = ground arith
count-stepped p (suc fuel) from until step h k =
    let ih = count-stepped p fuel (from + step) until step h (omega arith) in
    elim (Bool-cases (ltb from until)) [
      | inl e ↦ rw (e, stepped, ih) (sym (on_steps_next p from until step h (ltb→lt from until e)))
      | inr e ↦ rw e (ground arith)
    ]

count-step_by :
    (p from until step : ℕ)
    → 0 < step
    → count p (step_by from until step) ≡ (if on_steps p from until step then 1 else 0)
unfolding step_by
count-step_by p from until step h = count-stepped p until from until step h (omega arith)

-- The steps from `b` on, and those from `a` to `b`, are those from `a` on.
joined_counts :
    (p a b end n shard : ℕ)
    → a ≤ b
    → b ≤ end
    → a % n ≡ shard
    → b % n ≡ shard
    → (if on_steps p b (suc end) n then 1 else 0) + (if on_steps p a b n then 1 else 0)
      ≡ (if leb a p && leb p end && (p % n == shard) then 1 else 0)
joined_counts p a b end n shard h k x y = rw (x, y) (ground arith)

-- `range_new` accepts the ranges of `u16` which are not empty and start at 1024 or above.
pub record IsPortRange (r : ShardAwarePortRange) : Type 0 where
  pub ascends : r.start ≤ r.end
  pub unreserved : 1024 ≤ r.start
  pub ends : r.end < 2 ^ 16

-- The constructor makes a range of two `u16`s, or an error exactly if they make no valid range.
pub range_new-IsPortRange :
    (start end : ℕ)
    → end < 2 ^ 16
    → let r : ShardAwarePortRange = record { start = start; end = end } in
      ((range_new start end ≡ ok r) × IsPortRange r)
      ⊎ ((range_new start end ≡ err InvalidShardAwarePortRange.invalid_range) × ¬ IsPortRange r)
unfolding range_new
range_new-IsPortRange start end h = elim (Bool-cases (ltb end start)) [
  | inl empty ↦ inr (rw empty refl, λ v. absurd (omega (arith, ltb→lt end start empty, v.ascends)))
  | inr full ↦ elim (Bool-cases (ltb start 1024)) [
    | inl low ↦
        inr (rw (full, low) refl, λ v. absurd (omega (arith, ltb→lt start 1024 low, v.unreserved)))
    | inr high ↦ inl (
      rw (full, high) refl,
      record { ascends = ltb→le end start full; unreserved = ltb→le start 1024 high; ends = h },
    )
  ]
]

-- What the documentation of `random_range` promises: a number of the range, if there is one.
abbrev pub Draws : (ℕ → ℕ → Option ℕ) → Type 0
Draws random_range =
    (low high : ℕ)
    → low < high
    → (r : ℕ) × (random_range low high ≡ some r) × (low ≤ r) × (r < high)

-- The bounds of the draw are in order.
abbrev pub IsWide : Sharder → ShardAwarePortRange → Type 0
IsWide s r = r.start + 2 * s.nr_shards ≤ r.end + 1

-- The lowest port of the range which the iterator gives.
abbrev pub first_port : Sharder → ShardAwarePortRange → ℕ → ℕ
first_port s range shard = div_ceil range.start s.nr_shards * s.nr_shards + shard

module _ (s : Sharder) (range : ShardAwarePortRange) (v : IsPortRange range)
    (c : IsShardCount s.nr_shards) (w : IsWide s range) where
  drawn_port :
      (shard r : ℕ)
      → shard < s.nr_shards
      → range.start + s.nr_shards - 1 ≤ r
      → r < range.end - s.nr_shards + 1
      → (range.start ≤ r / s.nr_shards * s.nr_shards)
        × (r / s.nr_shards * s.nr_shards + shard ≤ range.end)
        × ((r / s.nr_shards * s.nr_shards + shard) % s.nr_shards ≡ shard)
  drawn_port shard r h a b =
      let x = lt-div-mul-add {a = r} c.0 in
      let y = div-mul-le_self r s.nr_shards in
      let z : range.start + s.nr_shards + s.nr_shards ≤ range.end + 1 = omega (arith, w) in
      (
        omega (arith, x, a),
        omega (arith, y, b, h, z, c.0),
        mul-add-mod_self_right (r / s.nr_shards) s.nr_shards shard ∙ mod-eq_of_lt h,
      )

  draw_steps :
      (random_range : ℕ → ℕ → Option ℕ) (shard r : ℕ)
      → shard < s.nr_shards
      → random_range (range.start + s.nr_shards - 1) (range.end - s.nr_shards + 1) ≡ some r
      → r / s.nr_shards * s.nr_shards + shard < 2 ^ 16
      → draw_source_port random_range s shard range ≡ some (r / s.nr_shards * s.nr_shards + shard)
  unfolding draw_source_port add_u16 sub_u16
  draw_steps random_range shard r h e f =
      let valid : leb s.nr_shards shard ≡ false = ground (arith, h) in
      let one : ltb (range.start + s.nr_shards) (2 ^ 16) ≡ true =
        lt→ltb (range.start + s.nr_shards) (2 ^ 16) (omega (arith, w, c.0, v.ends)) in
      let two : leb 1 (range.start + s.nr_shards) ≡ true = ground (arith, c.0) in
      let three : leb s.nr_shards range.end ≡ true = ground (arith, w, c.0, v.ends) in
      let four : ltb (range.end - s.nr_shards + 1) (2 ^ 16) ≡ true =
        lt→ltb (range.end - s.nr_shards + 1) (2 ^ 16) (omega (arith, c.0, v.ends)) in
      let five = lt→ltb (r / s.nr_shards * s.nr_shards + shard) (2 ^ 16) f in
      simp (valid, one, two, three, four, e, five)

  -- The multiple of the number of shards to which the port is drawn.
  drawn_at :
      (random_range : ℕ → ℕ → Option ℕ)
      → Draws random_range
      → (shard : ℕ) → shard < s.nr_shards
      → (m : ℕ) × (draw_source_port random_range s shard range ≡ some (m * s.nr_shards + shard))
        × (range.start ≤ m * s.nr_shards)
        × (m * s.nr_shards + shard ≤ range.end)
        × ((m * s.nr_shards + shard) % s.nr_shards ≡ shard)
  drawn_at random_range d shard h =
      let (r, e, a, b) =
        d (range.start + s.nr_shards - 1) (range.end - s.nr_shards + 1) (omega (arith, w, c.0)) in
      let (x, y, m) = drawn_port shard r h a b in
      (r / s.nr_shards, draw_steps random_range shard r h e (omega (arith, y, v.ends)), x, y, m)

  -- On a range that is wide enough, the draw for a shard of the node does not panic, and the port
  -- is in the range and leads to the shard.
  pub draw_source_port-shard_of_source_port :
      (random_range : ℕ → ℕ → Option ℕ)
      → Draws random_range
      → (shard : ℕ) → shard < s.nr_shards
      → (port : ℕ) × (draw_source_port random_range s shard range ≡ some port)
        × (range.start ≤ port)
        × (port ≤ range.end)
        × (shard_of_source_port s port ≡ shard)
  unfolding shard_of_source_port
  draw_source_port-shard_of_source_port random_range d shard h =
      let (m, e, x, y, z) = drawn_at random_range d shard h in
      (m * s.nr_shards + shard, e, omega (arith, x), y, z)

  -- Rounding up stays below every multiple that is not below the number.
  div_ceil-le : (m : ℕ) → range.start ≤ m * s.nr_shards → div_ceil range.start s.nr_shards ≤ m
  unfolding div_ceil
  div_ceil-le m h =
      let n = s.nr_shards in
      let q = range.start / n in
      let x : n * q + range.start % n ≡ range.start = div-add-mod range.start n in
      elim (Bool-cases (ltb m q)) [
        | inl above ↦
            let z : n * suc m ≤ n * q = mul-le-mul_left n (ltb→lt m q above) in
            absurd (omega (arith, x, z, mul-suc n m, mul_comm m n, h, c.0))
        | inr below ↦ elim (Bool-cases (ltb q m)) [
          | inl less ↦ ground (arith, less)
          | inr same ↦
              let t : q ≡ m = omega (arith, ltb→le m q below, ltb→le q m same) in
              let u : range.start % n ≡ 0 = omega (arith, x, h, mul_comm m n, ap (λ k. n * k) t) in
              rw u (omega (arith, t))
        ]
      ]

  iter_steps :
      (random_range : ℕ → ℕ → Option ℕ) (shard start : ℕ)
      → shard < s.nr_shards
      → draw_source_port random_range s shard range ≡ some start
      → first_port s range shard < 2 ^ 16
      → iter_source_ports random_range s shard range
        ≡ some (
            step_by start (suc range.end) s.nr_shards
            ++ step_by (first_port s range shard) start s.nr_shards)
  unfolding iter_source_ports add_u16
  iter_steps random_range shard start h e f =
      let valid : leb s.nr_shards shard ≡ false = ground (arith, h) in
      simp (valid, e, lt→ltb (first_port s range shard) (2 ^ 16) f)

  -- On a range that is wide enough, the iterator for a shard of the node does not panic, and gives
  -- every port from the lowest multiple of the number of shards in the range upwards which leads to
  -- the shard, each once, and no other.
  pub iter_source_ports-count :
      (random_range : ℕ → ℕ → Option ℕ)
      → Draws random_range
      → (shard : ℕ) → shard < s.nr_shards
      → (ports : List ℕ) × (iter_source_ports random_range s shard range ≡ some ports)
        × ((p : ℕ)
            → count p ports ≡ (
                if leb (first_port s range shard) p
                  && leb p range.end
                  && (shard_of_source_port s p == shard)
                then 1
                else 0))
  unfolding shard_of_source_port
  iter_source_ports-count random_range d shard h =
      let (m, e, x, y, z) = drawn_at random_range d shard h in
      let start = m * s.nr_shards + shard in
      let lower : first_port s range shard ≤ start =
        ground (arith, mul-le-mul_right s.nr_shards (div_ceil-le m x)) in
      (
        step_by start (suc range.end) s.nr_shards
            ++ step_by (first_port s range shard) start s.nr_shards,
        iter_steps random_range shard start h e (omega (arith, lower, y, v.ends)),
        λ p.
            rw
              (
                count-append p (step_by start (suc range.end) s.nr_shards)
                    (step_by (first_port s range shard) start s.nr_shards),
                count-step_by p start (suc range.end) s.nr_shards c.0,
                count-step_by p (first_port s range shard) start s.nr_shards c.0,
              )
              (joined_counts p (first_port s range shard) start range.end s.nr_shards shard lower y
                (mul-add-mod_self_right (div_ceil range.start s.nr_shards) s.nr_shards shard
                  ∙ mod-eq_of_lt h)
                z),
      )

-- What the documentation of `random_range` says of a range without numbers: it panics.
abbrev pub RefusesEmpty : (ℕ → ℕ → Option ℕ) → Type 0
RefusesEmpty random_range = (low high : ℕ) → high ≤ low → random_range low high ≡ none

-- On a range that is not wide enough, which `range_new` accepts as well, the draw panics.
pub draw_source_port_narrow :
    (s : Sharder) (range : ShardAwarePortRange) (random_range : ℕ → ℕ → Option ℕ) (shard : ℕ)
    → IsPortRange range
    → IsShardCount s.nr_shards
    → RefusesEmpty random_range
    → range.end + 1 < range.start + 2 * s.nr_shards
    → draw_source_port random_range s shard range ≡ none
unfolding draw_source_port add_u16 sub_u16
draw_source_port_narrow s range random_range shard v c d h =
    elim (Bool-cases (leb s.nr_shards shard)) [
      | inl bad ↦ simp bad
      | inr valid ↦ elim (Bool-cases (ltb (range.start + s.nr_shards) (2 ^ 16))) [
        | inr one ↦ simp (valid, one)
        | inl one ↦ elim (Bool-cases (leb s.nr_shards range.end)) [
          | inr three ↦
              let two : leb 1 (range.start + s.nr_shards) ≡ true = ground (arith, c.0) in
              simp (valid, one, two, three)
          | inl three ↦
              let two : leb 1 (range.start + s.nr_shards) ≡ true = ground (arith, c.0) in
              let below : s.nr_shards ≤ range.end = ground (arith, three) in
              let four : ltb (range.end - s.nr_shards + 1) (2 ^ 16) ≡ true =
                lt→ltb (range.end - s.nr_shards + 1) (2 ^ 16) (omega (arith, c.0, v.ends)) in
              let refused =
                d (range.start + s.nr_shards - 1) (range.end - s.nr_shards + 1)
                  (omega (arith, h, below, c.0)) in
              simp (valid, one, two, three, four, refused)
        ]
      ]
    ]
