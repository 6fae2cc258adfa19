-- ===== src/Network/Examples.antt =====
-- Tests of the stream bookkeeping, and its theorems at concrete inputs.
use scylla_rust_driver.Prelude.{
  ℕ, ◌-◌, ◌^◌, ◌<◌, ◌≡◌, ◌⊎◌, refl, true, none, some, ◌∷◌, Option, Result, replicate, All-replicate,
  ok, arith,
}
use scylla_rust_driver.Prelude.Bits.{trailing_ones, set_bit, clear_bit}
use scylla_rust_driver.Network.StreamIdSet
use scylla_rust_driver.Network.StreamIdSet.{StreamIdSet}
use scylla_rust_driver.Network.StreamIdSet.Laws.{
  IsBitmap, used, Allocated, Released, allocate-Allocated, allocate-none, free-Released,
}
use scylla_rust_driver.Network.Orphanage
use scylla_rust_driver.Network.HandlerMap.{
  ResponseHandler, ResponseHandlerMap, HandlerLookupResult, handler, orphaned, new, allocate,
  orphan, lookup,
}
use scylla_rust_driver.Network.HandlerMap.Invariant.{IsConsistent, new-IsConsistent}
use scylla_rust_driver.Network.HandlerMap.Invariant.Allocate.{AllocateResult, allocate_lem}
use scylla_rust_driver.Network.HandlerMap.Invariant.Lookup.{Answered, lookup_lem}
use scylla_rust_driver.Network.HandlerMap.Steps.{Step, Reach, Reach-IsConsistent}
use scylla_rust_driver.Network.HandlerMap.Steps.Delivery.{
  Silent, GivenUp, response_reaches_its_request,
}

abbrev two_used : StreamIdSet
unfolding StreamIdSet.zeros
two_used = record { used_bitmap = (2 ^ 64 - 1) ∷ 5 ∷ StreamIdSet.zeros 510 }

-- The first word is full and the second has its bits 0 and 2 set.
allocate_second_word :
    StreamIdSet.allocate two_used
    ≡ some (65, record { used_bitmap = (2 ^ 64 - 1) ∷ 7 ∷ StreamIdSet.zeros 510 })
unfolding StreamIdSet.allocate StreamIdSet.zeros trailing_ones set_bit
allocate_second_word = refl

abbrev request : ResponseHandler
request = record { response_sender = 7; request_id = 1 }

map_of : Option (ResponseHandlerMap × Result ResponseHandler ℕ) → ResponseHandlerMap
map_of none = new
map_of (some (m, _)) = m

answered_map : Option (ResponseHandlerMap × HandlerLookupResult) → ResponseHandlerMap
answered_map none = new
answered_map (some (m, _)) = m

-- The request is sent, given up, and answered.
sent : ResponseHandlerMap
unfolding allocate map_of new StreamIdSet.allocate StreamIdSet.new trailing_ones set_bit
sent = map_of (allocate request new)

given_up : ResponseHandlerMap
unfolding sent orphan Orphanage.new Orphanage.insert
given_up = orphan 50 1 sent

answered : ResponseHandlerMap
unfolding given_up answered_map lookup StreamIdSet.free clear_bit Orphanage.contains
    Orphanage.remove
answered = answered_map (lookup 0 given_up)

submitted_request : allocate request new ≡ some (sent, ok 0)
unfolding sent
submitted_request = refl

answered_request : lookup 0 given_up ≡ some (answered, orphaned)
unfolding answered
answered_request = refl

unregistered : new.request_to_stream 1 ≡ none
unfolding new
unregistered = refl

abbrev request_given_up : Silent 0 sent given_up
unfolding given_up
request_given_up = Silent.gave_up 50 1 Silent.here

response_reaches_its_request_example :
    ((orphaned ≡ handler request) × ¬ GivenUp 1 request_given_up)
    ⊎ ((orphaned ≡ orphaned) × GivenUp 1 request_given_up)
response_reaches_its_request_example =
    response_reaches_its_request request 0 orphaned new-IsConsistent unregistered submitted_request
      request_given_up answered_request

two_used-IsBitmap : IsBitmap two_used
unfolding StreamIdSet.zeros
two_used-IsBitmap = record { words = omega arith; size = refl }

allocate-Allocated_example :
    Allocated two_used 65 (record { used_bitmap = (2 ^ 64 - 1) ∷ 7 ∷ StreamIdSet.zeros 510 })
allocate-Allocated_example = allocate-Allocated two_used 65 _ two_used-IsBitmap allocate_second_word

free-Released_example :
    (s : StreamIdSet) × (StreamIdSet.free two_used 66 ≡ some s) × Released two_used 66 s
free-Released_example = free-Released two_used 66 two_used-IsBitmap (omega arith)

allocate_lem_example :
    (r : ResponseHandlerMap × Result ResponseHandler ℕ) × (allocate request new ≡ some r)
    × AllocateResult request new r
allocate_lem_example = allocate_lem request new new-IsConsistent unregistered

run : Reach new answered
unfolding given_up
run =
    Reach.next
      (Reach.next
        (Reach.next Reach.here (Step.submit request (ok 0) unregistered submitted_request))
        (Step.give_up 50 1))
      (Step.respond 0 orphaned (omega arith) answered_request)

Reach-IsConsistent_example : IsConsistent answered
Reach-IsConsistent_example = Reach-IsConsistent run

lookup_lem_example :
    (m : ResponseHandlerMap) × (r : HandlerLookupResult) × (lookup 5 answered ≡ some (m, r))
    × Answered 5 answered m r
lookup_lem_example = lookup_lem 5 answered Reach-IsConsistent_example (omega arith)

full : StreamIdSet
full = record { used_bitmap = replicate 512 (2 ^ 64 - 1) }

full-IsBitmap : IsBitmap full
unfolding full
full-IsBitmap = record {
  words = All-replicate (λ b. b < 2 ^ 64) 512 (2 ^ 64 - 1) (omega arith);
  size = refl;
}

no_id_left : StreamIdSet.allocate full ≡ none
unfolding full StreamIdSet.allocate
no_id_left = refl

allocate-none_example : used full 32767 ≡ true
allocate-none_example = allocate-none full full-IsBitmap no_id_left 32767 (omega arith)
