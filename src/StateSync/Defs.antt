-- ===== src/StateSync/Defs.antt =====
-- StateSync, syncLoop and streamDiffs, cut where they block.
use ioswarm.Common.{
  ℕ, suc, ◌+◌, ◌%◌, ◌^◌, Option, none, some, List, [], ◌∷◌, Bytes, Bool, true, false, ltb,
  if◌then◌else◌,
}
use ioswarm.Errors.{Error}
use ioswarm.Store.{Bolt, StateDiffEntry, StateStore, apply_diff}

-- stateDiffResponse of types.go. Nothing reads the digest.
pub record StateDiffResponse : Type 0 where
  pub height : ℕ
  pub entries : List StateDiffEntry
  pub digest_bytes : Bytes

-- An error of gRPC's own, or the one that streamDiffs makes of ApplyDiff's.
pub data SyncError : Type 0 where
  grpc : ℕ → SyncError
  apply_failed : ℕ → Error → SyncError

-- What NewStream, SendMsg and CloseSend return.
pub record Opening : Type 0 where
  pub new_stream : Option SyncError
  pub send_msg : Option SyncError
  pub close_send : Option SyncError

-- Where the goroutine stands: before a stream is opened; in RecvMsg, with the height that was asked
-- for and the diffs that this stream has brought; in time.Sleep; or returned.
pub data Phase : Type 0 where
  connecting sleeping returned : Phase
  receiving : ℕ → ℕ → Phase

-- `ready_closes` counts the calls of `close(ss.readyCh)`, of which a second one panics.
pub record StateSync (b : Bolt) : Type 0 where
  pub store : StateStore b
  pub ready : Bool
  pub ready_closes : ℕ
  pub cancelled : Bool
  pub phase : Phase
  pub last_error : Option SyncError

pub data Event : Type 0 where
  cancel : Event
  opened : Opening → Event
  received : StateDiffResponse → Event
  broken : SyncError → Event
  woke : Event

-- The first error of the three calls, in their order.
abbrev pub or_else : Option SyncError → Option SyncError → Option SyncError
or_else (some e) rest = some e
or_else none rest = rest

unfoldable pub open_error : Opening → Option SyncError
open_error o = or_else o.new_stream (or_else o.send_msg o.close_send)

module _ (b : Bolt) where
  -- NewStateSync and Start
  unfoldable pub start : StateStore b → StateSync b
  start store = record {
    store = store;
    ready = false;
    ready_closes = 0;
    cancelled = false;
    phase = connecting;
    last_error = none;
  }

  -- Resume from the next block. A height is a uint64.
  unfoldable pub from_height : StateStore b → ℕ
  from_height store = if ltb 0 store.height then (store.height + 1) % 2 ^ 64 else store.height

  -- streamDiffs has returned an error: `if ctx.Err() != nil { return }`, then the pause.
  unfoldable pub after_stream : SyncError → StateSync b → StateSync b
  after_stream e ss = record ss {
    phase = if ss.cancelled then returned else sleeping;
    last_error = some e;
  }

  unfoldable pub mark_ready : StateSync b → StateSync b
  mark_ready ss =
      if ss.ready then ss else record ss { ready = true; ready_closes = suc ss.ready_closes }

  -- Behind ApplyDiff: its error ends the stream.
  unfoldable pub on_applied : ℕ → ℕ → ℕ → Option Error × StateStore b → StateSync b → StateSync b
  unfolding after_stream mark_ready
  on_applied height from n (some e, store) ss =
      after_stream (apply_failed height e) (record ss { store = store })
  on_applied height from n (none, store) ss =
      mark_ready (record ss { store = store; phase = receiving from (suc n) })

  unfoldable pub on_response : ℕ → ℕ → StateDiffResponse → StateSync b → StateSync b
  unfolding on_applied
  on_response from n resp ss =
      on_applied resp.height from n (apply_diff b ss.store resp.height resp.entries) ss

  unfoldable pub on_opened : Option SyncError → StateSync b → StateSync b
  unfolding from_height after_stream
  on_opened (some e) ss = after_stream e ss
  on_opened none ss = record ss { phase = receiving (from_height ss.store) 0 }

  -- An event that the phase does not wait for does not arise, and changes nothing.
  unfoldable pub dispatch : Phase → Event → StateSync b → StateSync b
  unfolding open_error after_stream on_response on_opened
  dispatch connecting (opened o) ss =
      if ss.cancelled then record ss { phase = returned } else on_opened (open_error o) ss
  dispatch (receiving from n) (received resp) ss = on_response from n resp ss
  dispatch (receiving from n) (broken e) ss = after_stream e ss
  dispatch sleeping woke ss = record ss { phase = connecting }
  dispatch phase cancel ss = record ss { cancelled = true }
  dispatch _ _ ss = ss

  unfoldable pub step : StateSync b → Event → StateSync b
  unfolding dispatch
  step ss e = dispatch ss.phase e ss

  unfoldable pub run : StateSync b → List Event → StateSync b
  unfolding step
  run ss [] = ss
  run ss (e ∷ es) = run (step ss e) es

-- WaitReady: `select` on the closed channel and on the context, which picks one of those that are
-- there. `none` waits on, `some true` is nil, and `some false` the context's error.
unfoldable pub wait_ready : Bool → Bool → Bool → Option Bool
wait_ready true true pick = some pick
wait_ready true false pick = some true
wait_ready false true pick = some false
wait_ready false false pick = none
