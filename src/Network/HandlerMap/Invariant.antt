-- ===== src/Network/HandlerMap/Invariant.antt =====
-- The invariant that ties the four parts of the map together.
pub mod Allocate
pub mod Orphan
pub mod Lookup
use scylla_rust_driver.Prelude.{
  ℕ, ◌<◌, ◌≡◌, ◌≢◌, refl, Bool, true, false, Option, none, some, FunMap, arith, ◌==◌, if◌then◌else◌,
  Option-cases, Bool-cases, inl, inr, Result, ok, err, ◌⊎◌, insert_map, remove_map,
}
use scylla_rust_driver.Network.StreamIdSet
use scylla_rust_driver.Network.StreamIdSet.{StreamIdSet}
use scylla_rust_driver.Network.StreamIdSet.Laws.{
  used, IsBitmap, Allocated, allocate-Allocated, allocate-none, Released, free-Released,
  new-IsBitmap, used-new,
}
use scylla_rust_driver.Network.Orphanage
use scylla_rust_driver.Network.Orphanage.{OrphanageTracker}
use scylla_rust_driver.Network.Orphanage.Laws.{
  IsAgreeing, insert-IsAgreeing, remove-IsAgreeing, new-IsAgreeing,
}
use scylla_rust_driver.Network.HandlerMap.{
  ResponseHandler, ResponseHandlerMap, HandlerLookupResult, handler, orphaned, missing, new, enter,
  allocate, orphan, look, lookup,
}

-- What holds of one stream id: an id in use belongs to a waiting request or to an orphan, never to
-- both; a waiting request is registered under its own number; an id that is not in use is unknown.
abbrev IdState : Bool → Option ResponseHandler → Option ℕ → FunMap ℕ → ℕ → Type 0
IdState true (some h) none requests id = requests h.request_id ≡ some id
IdState true none (some t) requests id = Unit
IdState false none none requests id = Unit
IdState _ _ _ requests id = ⊥

-- A registered request is the one whose handler waits on the id.
abbrev Waiting : Option ResponseHandler → ℕ → Type 0
Waiting none r = ⊥
Waiting (some h) r = h.request_id ≡ r

pub record IsConsistent (m : ResponseHandlerMap) : Type 0 where
  pub bitmap : IsBitmap m.stream_set
  pub tracker : IsAgreeing m.orphanage_tracker
  pub ids :
      (id : ℕ)
      → IdState
          (used m.stream_set id)
          (m.handlers id)
          (m.orphanage_tracker.orphans id)
          m.request_to_stream
          id
  pub requests : (r id : ℕ) → m.request_to_stream r ≡ some id → Waiting (m.handlers id) r

pub new-IsConsistent : IsConsistent new
unfolding new Orphanage.new
new-IsConsistent = record {
  bitmap = new-IsBitmap;
  tracker = new-IsAgreeing;
  ids = λ id. rw (used-new id) tt;
  requests = λ r id e. ground arith;
}
