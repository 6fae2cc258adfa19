-- ===== src/Network/HandlerMap/Invariant/Orphan.antt =====
-- `orphan` keeps the invariant.
use scylla_rust_driver.Prelude.{ℕ, ◌≡◌, none, some, arith, Option-cases, inl, inr, remove_map}
use scylla_rust_driver.Network.Orphanage
use scylla_rust_driver.Network.Orphanage.{OrphanageTracker}
use scylla_rust_driver.Network.Orphanage.Laws.{insert-IsAgreeing}
use scylla_rust_driver.Network.HandlerMap.Invariant.{IsConsistent}
use scylla_rust_driver.Network.HandlerMap.{ResponseHandler, ResponseHandlerMap, orphan}

module _ (now r : ℕ) (m : ResponseHandlerMap) (c : IsConsistent m) where
  module _ (id : ℕ) (e : m.request_to_stream r ≡ some id) where
    waiting : (h : ResponseHandler) × (m.handlers id ≡ some h) × (h.request_id ≡ r)
    waiting = ground (arith, c.requests r id)

    not_orphan : m.orphanage_tracker.orphans id ≡ none
    not_orphan = ground (arith, c.ids id, waiting.1)

    orphaned_map : ResponseHandlerMap
    orphaned_map = record m {
      orphanage_tracker = Orphanage.insert now id m.orphanage_tracker;
      handlers = remove_map id m.handlers;
      request_to_stream = remove_map r m.request_to_stream;
    }

    orphaned_map-IsConsistent : IsConsistent orphaned_map
    unfolding orphaned_map Orphanage.insert
    orphaned_map-IsConsistent = record {
      bitmap = c.bitmap;
      tracker = insert-IsAgreeing now id m.orphanage_tracker not_orphan c.tracker;
      ids = λ j. ground (arith, c.ids j, c.ids id, waiting.1, waiting.2);
      requests = λ q j p. ground (arith, c.requests q j, waiting.1, waiting.2);
    }

  -- Giving up a request keeps the map consistent, whether the request is registered or not.
  pub orphan-IsConsistent : IsConsistent (orphan now r m)
  unfolding orphan orphaned_map
  orphan-IsConsistent = elim (Option-cases (m.request_to_stream r)) [
    | inl unknown ↦ rw (unknown, orphan) c
    | inr (id, e) ↦ rw (e, orphan) (orphaned_map-IsConsistent id e)
  ]
