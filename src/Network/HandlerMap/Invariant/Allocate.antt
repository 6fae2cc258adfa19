-- ===== src/Network/HandlerMap/Invariant/Allocate.antt =====
-- `allocate` keeps the invariant, and never fails its assertion.
use scylla_rust_driver.Prelude.{
  ℕ, ◌<◌, ◌≡◌, ◌≢◌, refl, true, false, none, some, arith, Option-cases, inl, inr, Result, ok, err,
  insert_map,
}
use mathlib.Core.Path.{subst}
use scylla_rust_driver.Network.StreamIdSet
use scylla_rust_driver.Network.StreamIdSet.{StreamIdSet}
use scylla_rust_driver.Network.StreamIdSet.Laws.{used, Allocated, allocate-Allocated, allocate-none}
use scylla_rust_driver.Network.HandlerMap.Invariant.{IsConsistent, IdState, Waiting}
use scylla_rust_driver.Network.HandlerMap.{ResponseHandler, ResponseHandlerMap, enter, allocate}

-- What `allocate` promises for a request that is not registered yet: it does not panic, and either
-- puts the handler on an id that was free, or finds all 32768 ids taken and changes nothing.
abbrev pub AllocateResult :
    ResponseHandler → ResponseHandlerMap → ResponseHandlerMap × Result ResponseHandler ℕ → Type 0
AllocateResult h m (m', ok id) =
    IsConsistent m'
    × (id < 32768)
    × (used m.stream_set id ≡ false)
    × (m'.handlers id ≡ some h)
    × ((j : ℕ) → j ≢ id → m'.handlers j ≡ m.handlers j)
    × (m'.orphanage_tracker ≡ m.orphanage_tracker)
AllocateResult h m (m', err h') =
    (m' ≡ m) × (h' ≡ h) × ((id : ℕ) → id < 32768 → used m.stream_set id ≡ true)

module _ (h : ResponseHandler) (m : ResponseHandlerMap) (c : IsConsistent m)
    (fresh : m.request_to_stream h.request_id ≡ none) where
  handlers_free : (id : ℕ) → used m.stream_set id ≡ false → m.handlers id ≡ none
  handlers_free id free = ground (arith, c.ids id)

  module _ (id : ℕ) (set : StreamIdSet) (got : Allocated m.stream_set id set) where
    entered : ResponseHandlerMap
    entered = record m {
      stream_set = set;
      request_to_stream = insert_map h.request_id id m.request_to_stream;
      handlers = insert_map id h m.handlers;
    }

    entered_ids :
        (j : ℕ)
        → IdState
            (used set j)
            (insert_map id h m.handlers j)
            (m.orphanage_tracker.orphans j)
            (insert_map h.request_id id m.request_to_stream)
            j
    entered_ids j = ground (arith, c.ids j, got.now_used j, got.was_unused)

    entered_requests :
        (r j : ℕ)
        → insert_map h.request_id id m.request_to_stream r ≡ some j
        → Waiting (insert_map id h m.handlers j) r
    entered_requests r j e = ground (arith, c.ids j, c.requests r j, got.was_unused)

    entered-IsConsistent : IsConsistent entered
    unfolding entered
    entered-IsConsistent = record {
      bitmap = got.valid;
      tracker = c.tracker;
      ids = entered_ids;
      requests = entered_requests;
    }

  -- `allocate` never fails its assertion. It puts the handler on a free id below 32768, keeping the
  -- map consistent and the other ids as they were; or it gives the handler back with the map
  -- unchanged, and then every id is in use.
  pub allocate_lem :
      (r : ResponseHandlerMap × Result ResponseHandler ℕ) × (allocate h m ≡ some r)
      × AllocateResult h m r
  unfolding allocate entered
  allocate_lem = elim (Option-cases (StreamIdSet.allocate m.stream_set)) [
    | inl full ↦
        ((m, err h), rw (full, allocate), (refl, refl, allocate-none m.stream_set c.bitmap full))
    | inr ((id, set), e) ↦
        let got = allocate-Allocated m.stream_set id set c.bitmap e in
        let free = handlers_free id got.was_unused in
        (
          (entered id set got, ok id),
          rw (e, allocate) (rw (free, enter) refl),
          (
            entered-IsConsistent id set got,
            got.in_range,
            got.was_unused,
            ground arith,
            λ j n. ground arith,
            refl,
          ),
        )
  ]

  -- The same of a call that returned.
  pub allocate_result :
      (r : ResponseHandlerMap × Result ResponseHandler ℕ)
      → allocate h m ≡ some r
      → AllocateResult h m r
  allocate_result r e =
      let (q, p, a) = allocate_lem in let same : q ≡ r = cc in subst (AllocateResult h m) same a
