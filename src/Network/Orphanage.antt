-- ===== src/Network/Orphanage.antt =====
-- `OrphanageTracker`: the stream ids whose request was given up before its response came.
-- An `Instant` is a number of nanoseconds; `Instant::now()` is an argument.
pub mod Laws
use scylla_rust_driver.Prelude.{
  ℕ, ◌+◌, ◌≡◌, Bool, true, false, ◌&&◌, ◌||◌, Option, none, some, List, [], ◌∷◌, ltb, ◌==◌,
  if◌then◌else◌, FunMap, empty_map, insert_map, remove_map,
}

-- `by_orphaning_times` is a `BTreeSet`: a list with no entry twice. The code asks it only how many
-- entries are below a bound, so the order of the list does not matter.
pub record OrphanageTracker : Type 0 where
  pub orphans : FunMap ℕ
  pub by_orphaning_times : List (ℕ × ℕ)

unfoldable pub new : OrphanageTracker
new = record { orphans = empty_map; by_orphaning_times = [] }

abbrev pub same_entry : ℕ × ℕ → ℕ × ℕ → Bool
same_entry (t, i) (u, j) = t == u && i == j

-- `BTreeSet::contains`, `insert` and `remove`.
unfoldable pub contains_entry : ℕ × ℕ → List (ℕ × ℕ) → Bool
contains_entry e [] = false
contains_entry e (x ∷ xs) = same_entry e x || contains_entry e xs

unfoldable pub insert_entry : ℕ × ℕ → List (ℕ × ℕ) → List (ℕ × ℕ)
unfolding contains_entry
insert_entry e xs = if contains_entry e xs then xs else e ∷ xs

unfoldable pub remove_entry : ℕ × ℕ → List (ℕ × ℕ) → List (ℕ × ℕ)
remove_entry e [] = []
remove_entry e (x ∷ xs) = let rest = remove_entry e xs in if same_entry e x then rest else x ∷ rest

unfoldable pub insert : (now stream_id : ℕ) → OrphanageTracker → OrphanageTracker
unfolding insert_entry
insert now stream_id o = record {
  orphans = insert_map stream_id now o.orphans;
  by_orphaning_times = insert_entry (now, stream_id) o.by_orphaning_times;
}

unfoldable pub remove : (stream_id : ℕ) → OrphanageTracker → OrphanageTracker
unfolding remove_entry
remove stream_id o = elim (o.orphans stream_id) [
  | none ↦ o
  | some time ↦ record {
    orphans = remove_map stream_id o.orphans;
    by_orphaning_times = remove_entry (time, stream_id) o.by_orphaning_times;
  }
]

unfoldable pub contains : ℕ → OrphanageTracker → Bool
contains stream_id o = elim (o.orphans stream_id) [ none ↦ false | some _ ↦ true ]

-- `(time, id) < (now - age, i16::MAX)`, with the age on the other side.
abbrev pub is_older : (now age : ℕ) → ℕ × ℕ → Bool
is_older now age (time, stream_id) =
    ltb (time + age) now || (time + age == now && ltb stream_id 32767)

unfoldable pub count_older : (now age : ℕ) → List (ℕ × ℕ) → ℕ
count_older now age [] = 0
count_older now age (x ∷ xs) = (if is_older now age x then 1 else 0) + count_older now age xs

-- `now - age` panics for an age beyond the clock's origin, which is left out.
unfoldable pub orphans_older_than : (now age : ℕ) → OrphanageTracker → ℕ
unfolding count_older
orphans_older_than now age o = count_older now age o.by_orphaning_times
