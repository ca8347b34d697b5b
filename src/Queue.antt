-- ===== src/Queue.antt =====
-- server/conn.go, `outstandingRequests`: the receiver's goroutine hands requests over to the server's, through a map
-- under a mutex and an unbuffered channel of message ids. Each event is what one goroutine does between two points
-- where it may wait. An event that would wait is not possible, and gives `none`. The type of the requests is a parameter.
pub mod Laws
mod Runs
use go_smb.Common.{
  ℕ, Bool, true, false, Option, none, some, List, [], ◌∷◌, ◌++◌, if◌then◌else◌, ◌>>=◌,
}
use go_smb.Common.Assoc.{find, insert, erase}

-- The receiver: outside of `set`, or in it at the send of the id.
pub data Receiver : Type 0 where
  ready : Receiver
  sending : ℕ → Receiver

-- The server: outside of `pop`, in its `select`, or behind it with an id and before the lock.
pub data Server : Type 0 where
  away : Server
  waiting : Server
  received : ℕ → Server

-- The queue with both goroutines. `sent` and `popped` record the requests that `set` and `pop` had.
pub record Outstanding (R : Type 0) : Type 0 where
  pub requests : List (ℕ × R)
  pub locked : Bool
  pub receiver : Receiver
  pub server : Server
  pub sent : List R
  pub popped : List R

pub data Event (R : Type 0) : Type 0 where
  -- The receiver calls `set` and stores the request.
  sets : ℕ → R → Event R
  -- The server calls `pop`.
  pops : Event R
  -- The id goes through the channel.
  hands : Event R
  -- The server takes the lock and looks the request up.
  looks : Event R
  -- The connection's context is cancelled, and `pop` returns.
  cancels : Event R

module _ {R : Type 0} where
  -- `newOutstandingRequests`.
  abbrev pub new_outstanding_requests : Outstanding R
  new_outstanding_requests = record {
    requests = [];
    locked = false;
    receiver = ready;
    server = away;
    sent = [];
    popped = [];
  }

  abbrev pub set_in : Receiver → ℕ → R → Outstanding R → Option (Outstanding R)
  set_in (sending i) id rr q = none
  set_in ready id rr q =
      if q.locked
      then none
      else some (record q {
        requests = insert id rr q.requests;
        receiver = sending id;
        sent = q.sent ++ (rr ∷ []);
      })

  abbrev pub hand_over : Receiver → Server → Outstanding R → Option (Outstanding R)
  hand_over (sending id) waiting q = some (record q { receiver = ready; server = received id })
  hand_over (sending id) away q = none
  hand_over (sending id) (received i) q = none
  hand_over ready server q = none

  -- What `pop` does with what it finds: without a request it waits again, and keeps the lock.
  abbrev pub popped_of : ℕ → Outstanding R → Option R → Outstanding R
  popped_of id q none = record q { locked = true; server = waiting; requests = erase id q.requests }
  popped_of id q (some rr) = record q {
    server = away;
    requests = erase id q.requests;
    popped = q.popped ++ (rr ∷ []);
  }

  abbrev pub look_up : Server → Outstanding R → Option (Outstanding R)
  look_up (received id) q = if q.locked then none else some (popped_of id q (find id q.requests))
  look_up away q = none
  look_up waiting q = none

  abbrev pub call_pop : Server → Outstanding R → Option (Outstanding R)
  call_pop away q = some (record q { server = waiting })
  call_pop waiting q = none
  call_pop (received id) q = none

  abbrev pub cancel : Server → Outstanding R → Option (Outstanding R)
  cancel waiting q = some (record q { server = away; locked = false })
  cancel away q = none
  cancel (received id) q = none

  abbrev pub step : Event R → Outstanding R → Option (Outstanding R)
  step (sets id rr) q = set_in q.receiver id rr q
  step pops q = call_pop q.server q
  step hands q = hand_over q.receiver q.server q
  step looks q = look_up q.server q
  step cancels q = cancel q.server q

  abbrev pub run : List (Event R) → Outstanding R → Option (Outstanding R)
  run [] q = some q
  run (e ∷ es) q = do q' ← step e q; run es q'
