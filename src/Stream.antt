-- ===== src/Stream.antt =====
-- client/stream.go: streams and their manager. Streams live on a store, since the manager, the
-- forwarding goroutine and the dispatcher share pointers to them; a pointer is an index in the
-- store. The locks make each function of the manager one step.
pub mod Reader
pub mod Writer
pub mod Metadata
pub mod Fifo
pub mod WellFormed
pub mod Feed
use tunnel_agent.Base.{
  ℕ, Bool, true, false, ◌||◌, List, [], ◌∷◌, ◌++◌, Option, none, some, Bytes, length, get_elem?,
  set, Chan, open_chan, lookup, insert, delete, nat_eq, if◌then◌else◌,
}
use tunnel_agent.Errors.{GoError, stream_already_exists, stream_not_found, Result, ok, err}

-- `opened` and `receiving` are StreamStateOpen and StreamStateData.
pub data StreamState : Type 0 where
  initial opened receiving closed error : StreamState

-- `close_ch` tells whether the channel closeCh has been closed; nothing is ever sent on it.
-- `metadata` is `none` where the map is nil. The connector is the agent's only one.
pub record Stream : Type 0 where
  pub id : ℕ
  pub state : StreamState
  pub created_at : ℕ
  pub metadata : Option (List (Bytes × Bytes))
  pub data_out : Chan Bytes
  pub close_ch : Bool
  pub read_buf : Bytes

-- The capacity of `dataOut`.
abbrev pub data_capacity : ℕ
data_capacity = 100

-- A call of onStreamCreated or onStreamClosed. Both calls stand last in their function, so the
-- model returns them for the caller to run.
pub data StreamCall : Type 0 where
  created_call closed_call : ℕ → StreamCall

-- `streams` maps an id to a pointer; the two flags tell whether the callbacks are set.
pub record StreamManager : Type 0 where
  pub streams : List (ℕ × ℕ)
  pub store : List Stream
  pub on_stream_created : Bool
  pub on_stream_closed : Bool

unfoldable pub new_stream_manager : StreamManager
new_stream_manager = record {
  streams = [];
  store = [];
  on_stream_created = false;
  on_stream_closed = false;
}

unfoldable pub set_on_stream_created : StreamManager → StreamManager
set_on_stream_created sm = record sm { on_stream_created = true }

unfoldable pub set_on_stream_closed : StreamManager → StreamManager
set_on_stream_closed sm = record sm { on_stream_closed = true }

-- The new manager, the calls to run, and the result.
pub record Returned (A : Type 0) : Type 0 where
  pub manager : StreamManager
  pub calls : List StreamCall
  pub result : A

abbrev pub fresh_stream : ℕ → ℕ → Stream
fresh_stream stream_id now = record {
  id = stream_id;
  state = initial;
  created_at = now;
  metadata = some [];
  data_out = open_chan;
  close_ch = false;
  read_buf = [];
}

create_absent : Option ℕ → ℕ → ℕ → StreamManager → Returned (Result ℕ)
create_absent (some _) stream_id now sm = record {
  manager = sm;
  calls = [];
  result = err stream_already_exists;
}
create_absent none stream_id now sm = record {
  manager = record sm {
    streams = insert stream_id (length sm.store) sm.streams;
    store = sm.store ++ fresh_stream stream_id now ∷ [];
  };
  calls = if sm.on_stream_created then created_call stream_id ∷ [] else [];
  result = ok (length sm.store);
}

-- The result is the pointer to the new stream.
unfoldable pub create_stream : ℕ → ℕ → StreamManager → Returned (Result ℕ)
unfolding create_absent
create_stream stream_id now sm = create_absent (lookup stream_id sm.streams) stream_id now sm

unfoldable pub get_stream : ℕ → StreamManager → Option ℕ
get_stream stream_id sm = lookup stream_id sm.streams

abbrev pub set_state : StreamState → Stream → Stream
set_state state s = record s { state = state }

-- What closing may do: return, or panic on a channel that is closed already.
pub data Closing : Type 0 where
  returns : Returned (Option GoError) → Closing
  panics : Closing

-- setState(StreamStateClosed), close(closeCh), close(dataOut).
abbrev pub shut : Stream → Stream
shut s = record (set_state closed s) {
  close_ch = true;
  data_out = record { items = s.data_out.items; closed = true };
}

close_found : ℕ → ℕ → Stream → StreamManager → Closing
close_found stream_id ptr s sm =
    if s.close_ch || s.data_out.closed
    then panics
    else returns (record {
      manager = record sm {
        streams = delete stream_id sm.streams;
        store = set sm.store ptr (shut s);
      };
      calls = if sm.on_stream_closed then closed_call stream_id ∷ [] else [];
      result = none;
    })

-- A pointer off the store does not occur; as a nil pointer it would panic.
close_at : ℕ → ℕ → Option Stream → StreamManager → Closing
close_at stream_id ptr none sm = panics
close_at stream_id ptr (some s) sm = close_found stream_id ptr s sm

close_entry : ℕ → Option ℕ → StreamManager → Closing
close_entry stream_id none sm =
    returns (record { manager = sm; calls = []; result = some stream_not_found })
close_entry stream_id (some ptr) sm = close_at stream_id ptr (get_elem? sm.store ptr) sm

unfoldable pub close_stream : ℕ → StreamManager → Closing
unfolding close_entry close_at close_found
close_stream stream_id sm = close_entry stream_id (lookup stream_id sm.streams) sm
