-- ===== src/Network/HandlerMap/Steps.antt =====
-- Runs of the connection's tasks over the shared map, in any interleaving: the writer allocates, the
-- orphaner gives up, the reader looks up. Each of them holds the lock for the whole call, so a run is
-- a sequence of calls.
pub mod Delivery
use scylla_rust_driver.Prelude.{ℕ, ◌<◌, ◌≡◌, none, some, Result, ok, err, sym}
use mathlib.Core.Path.{subst}
use scylla_rust_driver.Network.HandlerMap.{
  ResponseHandler, ResponseHandlerMap, HandlerLookupResult, new, allocate, orphan, lookup,
}
use scylla_rust_driver.Network.HandlerMap.Invariant.{IsConsistent, new-IsConsistent}
use scylla_rust_driver.Network.HandlerMap.Invariant.Allocate.{allocate_result}
use scylla_rust_driver.Network.HandlerMap.Invariant.Orphan.{orphan-IsConsistent}
use scylla_rust_driver.Network.HandlerMap.Invariant.Lookup.{lookup_result}

-- One call. Request numbers come from a counter, so a new request is never registered already.
pub data Step : ResponseHandlerMap → ResponseHandlerMap → Type 0 where
  submit :
      (h : ResponseHandler) {m m' : ResponseHandlerMap} (r : Result ResponseHandler ℕ)
      → m.request_to_stream h.request_id ≡ none
      → allocate h m ≡ some (m', r)
      → Step m m'
  give_up : (now request_id : ℕ) {m : ResponseHandlerMap} → Step m (orphan now request_id m)
  respond :
      (id : ℕ) {m m' : ResponseHandlerMap} (r : HandlerLookupResult)
      → id < 32768
      → lookup id m ≡ some (m', r)
      → Step m m'

pub data Reach (m : ResponseHandlerMap) : ResponseHandlerMap → Type 0 where
  here : Reach m m
  next : {k l : ResponseHandlerMap} → Reach m k → Step k l → Reach m l

kept :
    (h : ResponseHandler) (m m' : ResponseHandlerMap) (r : Result ResponseHandler ℕ)
    → IsConsistent m
    → m.request_to_stream h.request_id ≡ none
    → allocate h m ≡ some (m', r)
    → IsConsistent m'
kept h m m' (ok id) c fresh e = (allocate_result h m c fresh (m', ok id) e).0
kept h m m' (err h') c fresh e =
    subst IsConsistent (sym (allocate_result h m c fresh (m', err h') e).0) c

pub Step-IsConsistent : {m m' : ResponseHandlerMap} → Step m m' → IsConsistent m → IsConsistent m'
Step-IsConsistent (submit h r fresh e) c = kept h _ _ r c fresh e
Step-IsConsistent (give_up now r) c = orphan-IsConsistent now r _ c
Step-IsConsistent (respond id r l e) c = (lookup_result id _ c _ r l e).consistent

-- Whatever the calls, the map stays consistent: an id in use has exactly one owner, a waiting
-- request or an orphan, and no id is lost.
pub Reach-IsConsistent : {m : ResponseHandlerMap} → Reach new m → IsConsistent m
Reach-IsConsistent here = new-IsConsistent
Reach-IsConsistent (next r s) = Step-IsConsistent s (Reach-IsConsistent r)
