-- ===== src/Routing/Ring.antt =====
-- `TokenRing` of scylla/src/routing/locator/token_ring.rs.
pub mod Sorting
pub mod Walks
use scylla_rust_driver.Prelude.{
  ℕ, Bool, true, false, Option, none, some, List, [], ◌∷◌, ◌++◌, if◌then◌else◌, length, take, drop,
  map, Result, ok, err,
}
use scylla_rust_driver.Prelude.Int.{ℤ, leb_ℤ}
use scylla_rust_driver.Routing.Sharding.{Token}

-- `binary_search_by` of a slice with these tokens, which the order by tokens compares. Of several
-- exact matches it may give any one.
abbrev pub Search : Type 0
Search = List ℤ → ℤ → Result ℕ ℕ

pub record TokenRing (A : Type 0) : Type 0 where
  pub ring : List (Token × A)

abbrev pub index_of : Result ℕ ℕ → ℕ
index_of (ok exact_match_index) = exact_match_index
index_of (err first_greater_index) = first_greater_index

module _ {A : Type 0} where
  abbrev pub new_empty : TokenRing A
  new_empty = record { ring = [] }

  -- `sort_by`, which is stable.
  unfoldable pub insert_sorted : Token × A → List (Token × A) → List (Token × A)
  insert_sorted e [] = e ∷ []
  insert_sorted e (m ∷ ring) =
      let rest = insert_sorted e ring in
      if leb_ℤ e.0.value m.0.value then e ∷ m ∷ ring else m ∷ rest

  unfoldable pub sort_by : List (Token × A) → List (Token × A)
  unfolding insert_sorted
  sort_by [] = []
  sort_by (e ∷ ring_iter) = insert_sorted e (sort_by ring_iter)

  unfoldable pub ring_new : List (Token × A) → TokenRing A
  unfolding sort_by
  ring_new ring_iter = record { ring = sort_by ring_iter }

  abbrev pub tokens_of : List (Token × A) → List ℤ
  tokens_of ring = map (λ e. e.0.value) ring

  unfoldable pub ring_range_full : Search → TokenRing A → Token → List (Token × A)
  ring_range_full binary_search_by s token =
      let binary_search_index = index_of (binary_search_by (tokens_of s.ring) token.value) in
      take (length s.ring) (drop binary_search_index s.ring ++ s.ring)

  unfoldable pub ring_range : Search → TokenRing A → Token → List A
  unfolding ring_range_full
  ring_range binary_search_by s token = map (λ e. e.1) (ring_range_full binary_search_by s token)

  abbrev pub first : List A → Option A
  first [] = none
  first (e ∷ rest) = some e

  unfoldable pub get_elem_for_token : Search → TokenRing A → Token → Option A
  unfolding ring_range
  get_elem_for_token binary_search_by s token = first (ring_range binary_search_by s token)
