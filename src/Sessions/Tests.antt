-- ===== src/Sessions/Tests.antt =====
-- Runs and witnesses of the table of sessions.
use bgpmon.Base.{
  ℕ, zero, suc, [], ◌∷◌, none, some, false, ◌≡◌, refl, sym, arith, ◌<◌, replicate, length-replicate,
  ok,
}
use bgpmon.Queue.State.{QueueState, max_queue_writers}
use bgpmon.Queue.Ops.{create_queue}
use bgpmon.Queue.Writers.{WritersValid, SameMessages, taken}
use bgpmon.Labeling.Process.{label}
use bgpmon.Sessions.Store.{Store, mrt_session, mrt_tuple, find_session, find_from, destroy_session}
use bgpmon.Sessions.Life.{Created, create_mrt_session_struct_lem, destroy_session-create}

none_taken : (n : ℕ) → taken (replicate n false) ≡ 0
none_taken zero = refl
none_taken (suc n) = none_taken n

abbrev queue : QueueState
queue = create_queue false 0

queue-WritersValid : WritersValid queue
unfolding create_queue
queue-WritersValid = record { writers = sym (none_taken 1001); slots = length-replicate 1001 false }

-- One session of another peer, and two empty slots.
abbrev store : Store
store = record {
  sessions =
      some (mrt_session 0 (mrt_tuple 7018 6447 (49 ∷ []) (50 ∷ [])) label 2 0) ∷ none ∷ none ∷ [];
  peer_queue = queue;
}

missing : find_session 3356 6447 179 179 (51 ∷ []) (50 ∷ []) store ≡ none
unfolding find_session find_from
missing = refl

unlocked : queue.locked ≡ false
unfolding create_queue
unlocked = refl

few_writers : queue.writercount < max_queue_writers
unfolding create_queue
few_writers = omega arith

created : (i : ℕ) × (st : Store) × Created 3356 6447 (51 ∷ []) (50 ∷ []) label 2 store i st
created =
    create_mrt_session_struct_lem 3356 6447 (51 ∷ []) (50 ∷ []) label 2 store 1 refl (omega arith)
      (omega arith) queue-WritersValid unlocked few_writers missing

destroyed_example :
    (st : Store) × (destroy_session created.0 created.1 ≡ ok st)
    × (st.sessions ≡ store.sessions)
    × (st.peer_queue.used ≡ queue.used)
    × WritersValid st.peer_queue
    × SameMessages created.1.peer_queue st.peer_queue
destroyed_example =
    destroy_session-create 3356 6447 (51 ∷ []) (50 ∷ []) label 2 store created.0 created.1 created.2

created_example : (i : ℕ) × (st : Store) × Created 3356 6447 (51 ∷ []) (50 ∷ []) label 2 store i st
created_example =
    create_mrt_session_struct_lem 3356 6447 (51 ∷ []) (50 ∷ []) label 2 store 1 refl (omega arith)
      (omega arith) queue-WritersValid unlocked few_writers missing
