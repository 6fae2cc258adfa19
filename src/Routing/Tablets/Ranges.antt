-- ===== src/Routing/Tablets/Ranges.antt =====
-- The tablets of a table as disjoint ranges of tokens in ascending order, and the search in them.
use scylla_rust_driver.Prelude.{
  ◌≡◌, refl, Bool, ◌&&◌, Option, none, some, List, [], ◌∷◌, if◌then◌else◌, get_elem?, All, arith,
}
use scylla_rust_driver.Prelude.Int.{ℤ, ltb_ℤ, leb_ℤ, ◌≤ℤ◌, ◌<ℤ◌}
use scylla_rust_driver.Routing.Tablets.Replicas.{Tablet}
use scylla_rust_driver.Routing.Tablets.Table.{
  TableTablets, partition_point, tablet_for_token, starting_by,
}

abbrev pub IsRange : Tablet → Type 0
IsRange t = t.first_token ≤ℤ t.last_token

abbrev pub Behind : ℤ → List Tablet → Type 0
Behind token = All (λ (t : Tablet). token <ℤ t.first_token)

-- Every range is not empty, and ends before the next one starts.
abbrev pub IsOrdered : List Tablet → Type 0
IsOrdered [] = Unit
IsOrdered (t ∷ ts) = IsRange t × Behind t.last_token ts × IsOrdered ts

abbrev pub covers : ℤ → Tablet → Bool
covers token t = leb_ℤ t.first_token token && leb_ℤ token t.last_token

-- The specification of the search: the first tablet whose range holds the token.
unfoldable pub find_covering : ℤ → List Tablet → Option Tablet
find_covering token [] = none
find_covering token (t ∷ ts) = if covers token t then some t else find_covering token ts

Behind-le : (a b : ℤ) (ts : List Tablet) → a ≤ℤ b → Behind b ts → Behind a ts
Behind-le a b [] h all = tt
Behind-le a b (t ∷ ts) h all = (omega arith, Behind-le a b ts h all.1)

pub find_covering-Behind :
    (token : ℤ) (ts : List Tablet) → Behind token ts → find_covering token ts ≡ none
unfolding find_covering
find_covering-Behind token [] h = refl
find_covering-Behind token (t ∷ ts) h = ground (arith, find_covering-Behind token ts)

abbrev search_list : ℤ → List Tablet → Option Tablet
search_list token l =
    starting_by token (get_elem? l (partition_point (λ (t : Tablet). ltb_ℤ t.last_token token) l))

search_list-eq-find :
    (token : ℤ) (l : List Tablet) → IsOrdered l → search_list token l ≡ find_covering token l
unfolding partition_point find_covering
search_list-eq-find token [] h = refl
search_list-eq-find token (t ∷ ts) h = ground (
  arith,
  search_list-eq-find token ts,
  find_covering-Behind token ts,
  Behind-le token t.last_token ts,
)

-- In an ordered table the search by `partition_point` finds the tablet that holds the token, if
-- there is one, and nothing otherwise.
pub tablet_for_token-eq-find :
    (s : TableTablets) (token : ℤ)
    → IsOrdered s.tablet_list
    → tablet_for_token s token ≡ find_covering token s.tablet_list
unfolding tablet_for_token
tablet_for_token-eq-find s token h = search_list-eq-find token s.tablet_list h
