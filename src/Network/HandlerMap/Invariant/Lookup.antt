-- ===== src/Network/HandlerMap/Invariant/Lookup.antt =====
-- `lookup` keeps the invariant, and its answer is the state of the id.
use scylla_rust_driver.Prelude.{
  ℕ, ◌<◌, ◌≡◌, ◌≢◌, refl, false, none, some, arith, Option-cases, inl, inr, remove_map,
}
use mathlib.Core.Path.{subst₂}
use scylla_rust_driver.Network.StreamIdSet.{StreamIdSet}
use scylla_rust_driver.Network.StreamIdSet.Laws.{used, Released, free-Released}
use scylla_rust_driver.Network.Orphanage
use scylla_rust_driver.Network.Orphanage.{OrphanageTracker}
use scylla_rust_driver.Network.Orphanage.Laws.{remove-IsAgreeing}
use scylla_rust_driver.Network.HandlerMap.Invariant.{IsConsistent}
use scylla_rust_driver.Network.HandlerMap.{
  ResponseHandler, ResponseHandlerMap, HandlerLookupResult, handler, orphaned, missing, look,
  lookup,
}

-- What `lookup` says of an id, by the state of the map before it.
abbrev pub LookupResult : ResponseHandlerMap → ℕ → HandlerLookupResult → Type 0
LookupResult m id (handler h) = m.handlers id ≡ some h
LookupResult m id orphaned = m.orphanage_tracker.orphans id ≢ none
LookupResult m id missing = used m.stream_set id ≡ false

-- The answer `r` is the state of `id` before the call; afterwards the map is consistent, `id` is
-- free, and every other id is as it was.
pub record Answered (id : ℕ) (m m' : ResponseHandlerMap) (r : HandlerLookupResult) : Type 0 where
  pub consistent : IsConsistent m'
  pub answer : LookupResult m id r
  pub freed : used m'.stream_set id ≡ false
  pub same_handlers : (j : ℕ) → j ≢ id → m'.handlers j ≡ m.handlers j
  pub same_orphans :
      (j : ℕ) → j ≢ id → m'.orphanage_tracker.orphans j ≡ m.orphanage_tracker.orphans j

module _ (id : ℕ) (m : ResponseHandlerMap) (c : IsConsistent m) where
  module _ (set : StreamIdSet) (got : Released m.stream_set id set) where
    without_orphan : ResponseHandlerMap
    without_orphan = record m {
      stream_set = set;
      orphanage_tracker = Orphanage.remove id m.orphanage_tracker;
    }

    without_handler : ResponseHandler → ResponseHandlerMap
    without_handler h = record m {
      stream_set = set;
      handlers = remove_map id m.handlers;
      request_to_stream = remove_map h.request_id m.request_to_stream;
    }

    without_orphan-IsConsistent :
        m.orphanage_tracker.orphans id ≢ none → IsConsistent without_orphan
    unfolding without_orphan Orphanage.remove
    without_orphan-IsConsistent there = record {
      bitmap = got.valid;
      tracker = remove-IsAgreeing id m.orphanage_tracker c.tracker;
      ids = λ j. ground (arith, c.ids j, c.ids id, got.now_free j);
      requests = λ q j p. ground (arith, c.requests q j, c.ids id);
    }

    without_handler-IsConsistent :
        (h : ResponseHandler) → m.handlers id ≡ some h → IsConsistent (without_handler h)
    unfolding without_handler
    without_handler-IsConsistent h there = record {
      bitmap = got.valid;
      tracker = c.tracker;
      ids = λ j. ground (arith, c.ids j, c.ids id, got.now_free j);
      requests = λ q j p. ground (arith, c.requests q j, c.ids id, c.ids j);
    }

    unknown-IsConsistent :
        m.handlers id ≡ none
        → m.orphanage_tracker.orphans id ≡ none
        → IsConsistent (record m { stream_set = set })
    unknown-IsConsistent none_waits none_orphaned = record {
      bitmap = got.valid;
      tracker = c.tracker;
      ids = λ j. ground (arith, c.ids j, c.ids id, got.now_free j);
      requests = λ q j p. c.requests q j p;
    }

    orphan_found :
        (t : ℕ) → m.orphanage_tracker.orphans id ≡ some t → Answered id m without_orphan orphaned
    unfolding without_orphan Orphanage.remove
    orphan_found t there = record {
      consistent = without_orphan-IsConsistent (λ e. cc);
      answer = λ e. cc;
      freed = ground (arith, got.now_free id);
      same_handlers = λ j n. refl;
      same_orphans = λ j n. ground arith;
    }

    handler_found :
        (h : ResponseHandler)
        → m.handlers id ≡ some h
        → Answered id m (without_handler h) (handler h)
    unfolding without_handler
    handler_found h waits = record {
      consistent = without_handler-IsConsistent h waits;
      answer = waits;
      freed = ground (arith, got.now_free id);
      same_handlers = λ j n. ground arith;
      same_orphans = λ j n. refl;
    }

    nothing_found :
        m.handlers id ≡ none
        → m.orphanage_tracker.orphans id ≡ none
        → Answered id m (record m { stream_set = set }) missing
    nothing_found unknown gone = record {
      consistent = unknown-IsConsistent unknown gone;
      answer = ground (arith, c.ids id);
      freed = ground (arith, got.now_free id);
      same_handlers = λ j n. refl;
      same_orphans = λ j n. refl;
    }

    look_lem :
        (m' : ResponseHandlerMap) × (r : HandlerLookupResult) × (look m id set ≡ (m', r))
        × Answered id m m' r
    unfolding without_orphan without_handler Orphanage.contains
    look_lem = elim (Option-cases (m.orphanage_tracker.orphans id)) [
      | inr (t, there) ↦
          (without_orphan, orphaned, rw (there, Orphanage.contains), orphan_found t there)
      | inl gone ↦ elim (Option-cases (m.handlers id)) [
        | inr (h, waits) ↦ (without_handler h, handler h, ground arith, handler_found h waits)
        | inl unknown ↦
            (record m { stream_set = set }, missing, ground arith, nothing_found unknown gone)
      ]
    ]

  -- On every id below 32768 `lookup` does not panic. It answers with the handler that waits on the
  -- id, or that the id was orphaned, or, for an id that was not in use, that there is none; then the
  -- id is free, every other id is as it was, and the map is consistent.
  pub lookup_lem :
      id < 32768
      → (m' : ResponseHandlerMap) × (r : HandlerLookupResult) × (lookup id m ≡ some (m', r))
        × Answered id m m' r
  unfolding lookup
  lookup_lem h =
      let (set, e, got) = free-Released m.stream_set id c.bitmap h in
      let (m', r, at, a) = look_lem set got in (m', r, rw (e, at), a)

  -- The same of a call that returned.
  pub lookup_result :
      (m' : ResponseHandlerMap) (r : HandlerLookupResult)
      → id < 32768
      → lookup id m ≡ some (m', r)
      → Answered id m m' r
  lookup_result m' r h e =
      let (n, q, p, a) = lookup_lem h in
      let same : (n ≡ m') × (q ≡ r) = ground arith in subst₂ (Answered id m) same.0 same.1 a
