-- ===== src/Tests/Syncs.antt =====
-- The sync loop over a database in memory, for statesync.go.
use ioswarm.Common.{
  count_up, ℕ, ◌≡◌, refl, map, length, none, List, [], ◌∷◌, ◌++◌, true, arith, bytes_eq,
}
use ioswarm.Store.{StateStore, apply_diff}
use ioswarm.Store.Laws.{apply_diff-IsSynced}
use ioswarm.Store.Memory.{memory, memory-IsBolt}
use ioswarm.StateSync.{
  StateDiffResponse, StateSync, Event, opened, received, broken, woke, grpc, start, run, step,
  dispatch, on_opened, open_error, on_response, on_applied, mark_ready, after_stream, from_height,
}
use ioswarm.StateSync.Laws.{IsSound, IsBehind, applied, run-IsSound, run-IsBehind}
use ioswarm.StateSync.Order.{height_of, run_in_order}
use ioswarm.StateSync.Ready.{run_can_rejoin}
use ioswarm.Tests.Stores.{new_store, new_store-IsSynced, two_entries}

abbrev pub store12 : StateStore memory
store12 = (apply_diff memory new_store 12 two_entries).1

abbrev diff_at : ℕ → StateDiffResponse
diff_at h = record { height = h; entries = two_entries; digest_bytes = [] }

-- A stream that brings two diffs and breaks, and one that brings the next diff.
abbrev pub two_streams : List Event
two_streams =
    opened (record { new_stream = none; send_msg = none; close_send = none })
    ∷ received (diff_at 13)
    ∷ received (diff_at 14)
    ∷ broken (grpc 14)
    ∷ woke
    ∷ opened (record { new_stream = none; send_msg = none; close_send = none })
    ∷ received (diff_at 15)
    ∷ []

run-IsSound_example : IsSound memory memory-IsBolt (run memory (start memory store12) two_streams)
unfolding start
run-IsSound_example =
    run-IsSound memory memory-IsBolt (start memory store12) two_streams
      (tt, (omega arith, (omega arith, (tt, (tt, (tt, (omega arith, tt)))))))
      (record {
        synced =
            apply_diff-IsSynced memory memory-IsBolt new_store 12 two_entries (omega arith)
              new_store-IsSynced;
        closed_once = refl;
      })

run-IsBehind_example :
    IsBehind memory
      (start memory store12)
      (applied memory (start memory store12) two_streams)
      (run memory (start memory store12) two_streams)
run-IsBehind_example = run-IsBehind memory memory-IsBolt (start memory store12) two_streams

-- Where the two streams leave the sync.
abbrev behind : StateSync memory
behind = run memory (start memory store12) two_streams

run_in_order_example :
    map height_of (applied memory (start memory store12) two_streams)
    ≡ count_up 13 (length (applied memory (start memory store12) two_streams))
unfolding apply_diff bytes_eq run step dispatch on_opened open_error on_response on_applied
    mark_ready after_stream from_height start
run_in_order_example =
    run_in_order memory memory-IsBolt store12 two_streams (omega arith) (omega arith)
      (tt, (refl, (refl, (tt, (tt, (tt, (refl, tt)))))))

run_can_rejoin_example :
    (more : List Event) × ((run memory (start memory store12) (two_streams ++ more)).ready ≡ true)
    × ((run memory (start memory store12) (two_streams ++ more)).store
        ≡ (apply_diff memory behind.store 16 two_entries).1)
unfolding apply_diff bytes_eq run step dispatch on_opened open_error on_response on_applied
    mark_ready after_stream from_height start
run_can_rejoin_example =
    run_can_rejoin memory store12 two_streams (diff_at 16)
      (apply_diff memory behind.store 16 two_entries).1
      (refl, (refl, (refl, (refl, (refl, (refl, (refl, tt))))))) refl
