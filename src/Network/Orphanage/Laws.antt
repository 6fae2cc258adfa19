-- ===== src/Network/Orphanage/Laws.antt =====
-- The two collections of the tracker agree: an entry of the set for each orphan, and no other.
use scylla_rust_driver.Prelude.{
  ℕ, ◌≡◌, refl, Bool, true, false, Option, none, some, List, [], ◌∷◌, ◌==◌, if◌then◌else◌, arith,
  Option-cases, inl, inr,
}
use scylla_rust_driver.Network.Orphanage.{
  OrphanageTracker, new, same_entry, contains_entry, insert_entry, remove_entry, insert, remove,
}

abbrev is_at : Option ℕ → ℕ → Bool
is_at none t = false
is_at (some u) t = t == u

-- The set holds exactly the pairs (time, id) of the map, each once.
abbrev NoneTwice : List (ℕ × ℕ) → Type 0
NoneTwice [] = Unit
NoneTwice (x ∷ xs) = (contains_entry x xs ≡ false) × NoneTwice xs

pub record IsAgreeing (o : OrphanageTracker) : Type 0 where
  pub listed : (t i : ℕ) → contains_entry (t, i) o.by_orphaning_times ≡ is_at (o.orphans i) t
  pub once : NoneTwice o.by_orphaning_times

contains-insert_entry :
    (e f : ℕ × ℕ) (xs : List (ℕ × ℕ))
    → contains_entry f (insert_entry e xs) ≡ (if same_entry f e then true else contains_entry f xs)
unfolding insert_entry
contains-insert_entry (t, i) (u, j) xs = ground arith

NoneTwice-insert_entry :
    (e : ℕ × ℕ) (xs : List (ℕ × ℕ)) → NoneTwice xs → NoneTwice (insert_entry e xs)
unfolding insert_entry
NoneTwice-insert_entry e xs h = ground arith

contains-remove_entry :
    (e f : ℕ × ℕ) (xs : List (ℕ × ℕ))
    → contains_entry f (remove_entry e xs) ≡ (if same_entry f e then false else contains_entry f xs)
unfolding remove_entry contains_entry
contains-remove_entry e f [] = ground arith
contains-remove_entry (t, i) (u, j) ((v, k) ∷ xs) =
    ground (arith, contains-remove_entry (t, i) (u, j) xs)

NoneTwice-remove_entry :
    (e : ℕ × ℕ) (xs : List (ℕ × ℕ)) → NoneTwice xs → NoneTwice (remove_entry e xs)
unfolding remove_entry
NoneTwice-remove_entry e [] h = tt
NoneTwice-remove_entry (t, i) ((v, k) ∷ xs) h =
    ground (arith, NoneTwice-remove_entry (t, i) xs, contains-remove_entry (t, i) (v, k) xs)

pub new-IsAgreeing : IsAgreeing new
unfolding new contains_entry
new-IsAgreeing = record { listed = λ t i. refl; once = tt }

-- A new orphan, one that was none before, keeps the two collections in agreement.
pub insert-IsAgreeing :
    (now i : ℕ) (o : OrphanageTracker)
    → o.orphans i ≡ none
    → IsAgreeing o
    → IsAgreeing (insert now i o)
unfolding insert
insert-IsAgreeing now i o fresh h = record {
  listed = λ t j.
      ground (arith, contains-insert_entry (now, i) (t, j) o.by_orphaning_times, h.listed t j);
  once = NoneTwice-insert_entry (now, i) o.by_orphaning_times h.once;
}

pub remove-IsAgreeing : (i : ℕ) (o : OrphanageTracker) → IsAgreeing o → IsAgreeing (remove i o)
unfolding remove
remove-IsAgreeing i o h = elim (Option-cases (o.orphans i)) [
  | inl absent ↦ rw (absent, remove) h
  | inr (time, present) ↦
      rw (present, remove)
        (record {
          listed = λ t j.
              ground
                (arith, contains-remove_entry (time, i) (t, j) o.by_orphaning_times, h.listed t j);
          once = NoneTwice-remove_entry (time, i) o.by_orphaning_times h.once;
        })
]
