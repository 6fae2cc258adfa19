-- ===== src/Network/HandlerMap.antt =====
-- `ResponseHandlerMap`: which request waits for the response on which stream id.
pub mod Invariant
pub mod Steps
use scylla_rust_driver.Prelude.{
  ℕ, Bool, true, false, Option, none, some, List, FunMap, empty_map, insert_map, remove_map, Result,
  ok, err, if◌then◌else◌,
}
use scylla_rust_driver.Network.StreamIdSet
use scylla_rust_driver.Network.StreamIdSet.{StreamIdSet}
use scylla_rust_driver.Network.Orphanage
use scylla_rust_driver.Network.Orphanage.{OrphanageTracker}
use mathlib.Core.Option

-- The sending half of the channel to the request is known by a number.
pub record ResponseHandler : Type 0 where
  pub response_sender : ℕ
  pub request_id : ℕ

pub record ResponseHandlerMap : Type 0 where
  pub stream_set : StreamIdSet
  pub handlers : FunMap ResponseHandler
  pub request_to_stream : FunMap ℕ
  pub orphanage_tracker : OrphanageTracker

pub data HandlerLookupResult : Type 0 where
  orphaned missing : HandlerLookupResult
  handler : ResponseHandler → HandlerLookupResult

unfoldable pub new : ResponseHandlerMap
new = record {
  stream_set = StreamIdSet.new;
  handlers = empty_map;
  request_to_stream = empty_map;
  orphanage_tracker = Orphanage.new;
}

-- The two inserts of `allocate`; `none` is the panic of its `assert!`.
abbrev enter :
    ResponseHandlerMap
    → ResponseHandler
    → ℕ
    → StreamIdSet
    → Option (ResponseHandlerMap × Result ResponseHandler ℕ)
enter m response_handler stream_id stream_set = elim (m.handlers stream_id) [
  | none ↦ some (
    record m {
      stream_set = stream_set;
      request_to_stream = insert_map response_handler.request_id stream_id m.request_to_stream;
      handlers = insert_map stream_id response_handler m.handlers;
    },
    ok stream_id,
  )
  | some _ ↦ none
]

unfoldable pub allocate :
    ResponseHandler → ResponseHandlerMap → Option (ResponseHandlerMap × Result ResponseHandler ℕ)
allocate response_handler m = elim (StreamIdSet.allocate m.stream_set) [
  | none ↦ some (m, err response_handler)
  | some (stream_id, stream_set) ↦ enter m response_handler stream_id stream_set
]

unfoldable pub orphan : (now request_id : ℕ) → ResponseHandlerMap → ResponseHandlerMap
orphan now request_id m = elim (m.request_to_stream request_id) [
  | none ↦ m
  | some stream_id ↦ record m {
    orphanage_tracker = Orphanage.insert now stream_id m.orphanage_tracker;
    handlers = remove_map stream_id m.handlers;
    request_to_stream = remove_map request_id m.request_to_stream;
  }
]

-- `OLD_AGE_ORPHAN_THRESHOLD`, one second.
abbrev pub old_age_orphan_threshold : ℕ
old_age_orphan_threshold = 1_000_000_000

unfoldable pub old_orphans_count : (now : ℕ) → ResponseHandlerMap → ℕ
old_orphans_count now m =
    Orphanage.orphans_older_than now old_age_orphan_threshold m.orphanage_tracker

-- `lookup` behind the call of `free`.
abbrev look : ResponseHandlerMap → ℕ → StreamIdSet → ResponseHandlerMap × HandlerLookupResult
look m stream_id stream_set =
    if Orphanage.contains stream_id m.orphanage_tracker
    then (
      record m {
        stream_set = stream_set;
        orphanage_tracker = Orphanage.remove stream_id m.orphanage_tracker;
      },
      orphaned,
    )
    else elim (m.handlers stream_id) [
      | some h ↦ (
        record m {
          stream_set = stream_set;
          handlers = remove_map stream_id m.handlers;
          request_to_stream = remove_map h.request_id m.request_to_stream;
        },
        handler h,
      )
      | none ↦ (record m { stream_set = stream_set }, missing)
    ]

-- `none` is the panic of `free` on an id outside the bitmap.
unfoldable pub lookup : ℕ → ResponseHandlerMap → Option (ResponseHandlerMap × HandlerLookupResult)
lookup stream_id m = Option.map (look m stream_id) (StreamIdSet.free m.stream_set stream_id)

unfoldable pub into_handlers : ResponseHandlerMap → FunMap ResponseHandler
into_handlers m = m.handlers
