-- ===== src/Network/HandlerMap/Steps/Delivery.antt =====
-- A response reaches the request that its stream id was allocated for, and no other.
use scylla_rust_driver.Prelude.{
  ℕ, ◌<◌, ◌≡◌, true, ◌≢◌, ◌⊎◌, inl, inr, none, some, Option-cases, Result, ok, err, sym, arith,
}
use mathlib.Core.Path.{subst}
use scylla_rust_driver.Network.StreamIdSet.Laws.{used}
use scylla_rust_driver.Network.Orphanage
use scylla_rust_driver.Network.HandlerMap.{
  ResponseHandler, ResponseHandlerMap, HandlerLookupResult, handler, orphaned, missing, allocate,
  orphan, lookup,
}
use scylla_rust_driver.Network.HandlerMap.Invariant.{IsConsistent}
use scylla_rust_driver.Network.HandlerMap.Invariant.Allocate.{allocate_result}
use scylla_rust_driver.Network.HandlerMap.Invariant.Orphan.{orphan-IsConsistent}
use scylla_rust_driver.Network.HandlerMap.Invariant.Lookup.{LookupResult, lookup_result}

-- Calls other than the lookup of `id`: no response came on `id` so far.
pub data Silent (id : ℕ) (m : ResponseHandlerMap) : ResponseHandlerMap → Type 0 where
  here : Silent id m m
  submitted :
      {k l : ResponseHandlerMap} (h : ResponseHandler) (r : Result ResponseHandler ℕ)
      → Silent id m k
      → k.request_to_stream h.request_id ≡ none
      → allocate h k ≡ some (l, r)
      → Silent id m l
  gave_up : {k : ResponseHandlerMap} (now r : ℕ) → Silent id m k → Silent id m (orphan now r k)
  responded :
      {k l : ResponseHandlerMap} (j : ℕ) (r : HandlerLookupResult)
      → Silent id m k
      → j < 32768
      → j ≢ id
      → lookup j k ≡ some (l, r)
      → Silent id m l

-- The run has a give-up of this request.
unfoldable pub GivenUp :
    (request_id : ℕ) {id : ℕ} {m m' : ResponseHandlerMap} → Silent id m m' → Type 0
GivenUp request_id here = ⊥
GivenUp request_id (submitted h r s fresh e) = GivenUp request_id s
GivenUp request_id (gave_up now r s) = (r ≡ request_id) ⊎ GivenUp request_id s
GivenUp request_id (responded j r s l n e) = GivenUp request_id s

-- `id` is held by the request of `h`, which was not given up (`G`), or by an orphan, after it was.
record Holds (id : ℕ) (h : ResponseHandler) (m : ResponseHandlerMap) (G : Type 0) : Type 0 where
  consistent : IsConsistent m
  held :
      ((m.handlers id ≡ some h) × (m.orphanage_tracker.orphans id ≡ none) × ¬ G)
      ⊎ ((m.handlers id ≡ none) × (m.orphanage_tracker.orphans id ≢ none) × G)

module _ (id : ℕ) (h : ResponseHandler) where
  in_use : (m : ResponseHandlerMap) (G : Type 0) → Holds id h m G → used m.stream_set id ≡ true
  in_use m G c = ground (arith, c.consistent.ids id, c.held)

  Holds-submit :
      (g : ResponseHandler) (m m' : ResponseHandlerMap) (r : Result ResponseHandler ℕ) (G : Type 0)
      → m.request_to_stream g.request_id ≡ none
      → allocate g m ≡ some (m', r)
      → Holds id h m G
      → Holds id h m' G
  Holds-submit g m m' (ok j) G fresh e c =
      let (kept, low, free, mine, others, same) =
        allocate_result g m c.consistent fresh (m', ok j) e in
      let apart : id ≢ j = λ p. ground (arith, in_use m G c, p) in
      record { consistent = kept; held = ground (arith, others id apart, c.held) }
  Holds-submit g m m' (err g') G fresh e c =
      subst (λ k. Holds id h k G) (sym (allocate_result g m c.consistent fresh (m', err g') e).0) c

  Holds-give_up :
      (now r : ℕ) (m : ResponseHandlerMap) (G : Type 0)
      → Holds id h m G
      → Holds id h (orphan now r m) ((r ≡ h.request_id) ⊎ G)
  unfolding orphan Orphanage.insert
  Holds-give_up now r m G c =
      let kept = orphan-IsConsistent now r m c.consistent in
      elim (Option-cases (m.request_to_stream r)) [
        | inl unknown ↦ record {
          consistent = kept;
          held = ground (arith, unknown, c.held, c.consistent.ids id);
        }
        | inr (j, e) ↦ record {
          consistent = kept;
          held = ground (arith, e, c.held, c.consistent.requests r j, c.consistent.ids id);
        }
      ]

  Holds-respond :
      (j : ℕ) (m m' : ResponseHandlerMap) (r : HandlerLookupResult) (G : Type 0)
      → j < 32768
      → j ≢ id
      → lookup j m ≡ some (m', r)
      → Holds id h m G
      → Holds id h m' G
  Holds-respond j m m' r G l n e c =
      let a = lookup_result j m c.consistent m' r l e in
      record {
        consistent = a.consistent;
        held = ground (
          arith,
          c.held,
          a.same_handlers id (λ p. n (sym p)),
          a.same_orphans id (λ p. n (sym p)),
        );
      }

  Silent-Holds :
      {m m' : ResponseHandlerMap} (s : Silent id m m')
      → Holds id h m ⊥
      → Holds id h m' (GivenUp h.request_id s)
  unfolding GivenUp
  Silent-Holds here c = c
  Silent-Holds (submitted g r s fresh e) c = Holds-submit g _ _ r _ fresh e (Silent-Holds s c)
  Silent-Holds (gave_up now r s) c = Holds-give_up now r _ _ (Silent-Holds s c)
  Silent-Holds (responded j r s l n e) c = Holds-respond j _ _ r _ l n e (Silent-Holds s c)

  first_answer :
      (m : ResponseHandlerMap) (G : Type 0)
      → Holds id h m G
      → (r : HandlerLookupResult) → LookupResult m id r
      → ((r ≡ handler h) × ¬ G) ⊎ ((r ≡ orphaned) × G)
  first_answer m G c (handler g) a = ground (arith, c.held, c.consistent.ids id)
  first_answer m G c orphaned a = ground (arith, c.held, c.consistent.ids id)
  first_answer m G c missing a = absurd (ground (arith, in_use m G c))

-- On a consistent map, a stream id was allocated for a request that is not registered. However the
-- other calls interleave, if they submit only requests that are not registered, the first response
-- on that id finds the handler of this very request if the request was not given up since, and
-- an orphan if it was: it never reaches another request, and never counts as unexpected.
pub response_reaches_its_request :
    (h : ResponseHandler) (id : ℕ) {m0 m1 m2 m3 : ResponseHandlerMap} (r : HandlerLookupResult)
    → IsConsistent m0
    → m0.request_to_stream h.request_id ≡ none
    → allocate h m0 ≡ some (m1, ok id)
    → (s : Silent id m1 m2) → lookup id m2 ≡ some (m3, r)
    → ((r ≡ handler h) × ¬ GivenUp h.request_id s) ⊎ ((r ≡ orphaned) × GivenUp h.request_id s)
response_reaches_its_request h id {m0} {m1} {m2} r c fresh e s answer =
    let a = allocate_result h m0 c fresh (m1, ok id) e in
    let (kept, low, free, mine, others, same) = a in
    let c' =
      Silent-Holds id h s
        (record { consistent = kept; held = ground (arith, mine, kept.ids id) }) in
    first_answer id h m2 _ c' r (lookup_result id m2 c'.consistent _ r low answer).answer
