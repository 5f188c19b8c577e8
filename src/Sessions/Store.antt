-- ===== src/Sessions/Store.antt =====
-- The sessions that MRT connections make and look up: createMrtSessionStruct, findSession,
-- changeMrtState and destroySession (Peering/peersession.c). An id is a place in the array Sessions.
use bgpmon.Base.{
  ℕ, suc, List, [], ◌∷◌, Option, none, some, Bool, true, false, ◌&&◌, ltb, ◌==◌, length, get_elem?,
  set, if◌then◌else◌, Result, ok, err, out_of_bounds, or_fault, ◌>>=◌,
}
use bgpmon.Queue.State.{QueueState}
use bgpmon.Queue.Ops.{create_queue_writer, destroy_queue_writer}
use bgpmon.Session.State.{BgpState, mrt_established, BgpEvent, none_event}
use bgpmon.Labeling.State.{Rib, Stats, same_bytes}
use bgpmon.Labeling.Start.{create_rib}
use bgpmon.Labeling.Process.{LabelAction, no_action}

abbrev pub addr_max_chars : ℕ
addr_max_chars = 256

abbrev pub prefix_table_size : ℕ
prefix_table_size = 40000

abbrev pub attribute_table_size : ℕ
attribute_table_size = 40000

abbrev pub max_hash_collision : ℕ
max_hash_collision = 400

-- The two ends of a connection; an address is its characters.
pub record Tuple : Type 0 where
  pub local_addr : List ℕ
  pub local_port : ℕ
  pub local_as2 : ℕ
  pub remote_addr : List ℕ
  pub remote_port : ℕ
  pub remote_as2 : ℕ

-- The fields of SessionStruct that a session of an MRT connection uses; all others stay 0.
pub record MrtSession : Type 0 where
  pub session_id : ℕ
  pub config_in_use : Tuple
  pub route_refresh_action : Bool
  pub label_action : LabelAction
  pub state : BgpState
  pub reason : BgpEvent
  pub as_num_len : ℕ
  pub socket : Option ℕ
  pub peer_queue_writer : ℕ
  pub session_real_src_addr : List ℕ
  pub reconnect_flag : Bool
  pub last_action : ℕ
  pub rib : Option Rib

pub record Store : Type 0 where
  pub sessions : List (Option MrtSession)
  pub peer_queue : QueueState

-- The first empty slot.
unfoldable pub empty_slot : List (Option MrtSession) → Option ℕ
empty_slot [] = none
empty_slot (none ∷ l) = some 0
empty_slot (some s ∷ l) = elim (empty_slot l) [ none ↦ none | some i ↦ some (suc i) ]

abbrev pub zero_stats : Stats
zero_stats = record {
  nann_rcvd = 0;
  dann_rcvd = 0;
  spath_rcvd = 0;
  dpath_rcvd = 0;
  with_rcvd = 0;
  duwi_rcvd = 0;
  memory_used = 0;
  prefix_count = 0;
  attr_count = 0;
}

-- The prefix and the attribute table, if the session is to store its RIB.
abbrev pub initial_rib : LabelAction → Option Rib
initial_rib no_action = none
initial_rib wanted = some (
    create_rib prefix_table_size attribute_table_size max_hash_collision max_hash_collision
      zero_stats)

-- strcpy to a field of ADDR_MAX_CHARS characters.
abbrev pub strcpy : List ℕ → Result (List ℕ)
strcpy s = if ltb (length s) addr_max_chars then ok s else err out_of_bounds

abbrev pub mrt_tuple : ℕ → ℕ → List ℕ → List ℕ → Tuple
mrt_tuple src_as dst_as src_addr dst_addr = record {
  local_addr = dst_addr;
  local_port = 179;
  local_as2 = dst_as;
  remote_addr = src_addr;
  remote_port = 179;
  remote_as2 = src_as;
}

abbrev pub mrt_session : ℕ → Tuple → LabelAction → ℕ → ℕ → MrtSession
mrt_session i t wanted as_num_len writer = record {
  session_id = i;
  config_in_use = t;
  route_refresh_action = true;
  label_action = wanted;
  state = mrt_established;
  reason = none_event;
  as_num_len = as_num_len;
  socket = none;
  peer_queue_writer = writer;
  session_real_src_addr = t.local_addr;
  reconnect_flag = false;
  last_action = 0;
  rib = initial_rib wanted;
}

-- Without a queue writer the function returns -1, here none.
abbrev pub insert_session :
    ℕ → Tuple → LabelAction → ℕ → Store → QueueState → Option ℕ → Store × Option ℕ
insert_session i t wanted as_num_len st q none = (record st { peer_queue = q }, none)
insert_session i t wanted as_num_len st q (some writer) = (
  record {
    sessions = set st.sessions i (some (mrt_session i t wanted as_num_len writer));
    peer_queue = q;
  },
  some i,
)

abbrev pub create_at :
    Option ℕ → ℕ → ℕ → List ℕ → List ℕ → LabelAction → ℕ → Store → Result (Store × Option ℕ)
create_at none src_as dst_as src_addr dst_addr wanted as_num_len st = ok (st, none)
create_at (some i) src_as dst_as src_addr dst_addr wanted as_num_len st =
    strcpy dst_addr >>= λ local. strcpy src_addr >>= λ remote.
    create_queue_writer st.peer_queue >>= λ (q, writer).
    ok (insert_session i (mrt_tuple src_as dst_as remote local) wanted as_num_len st q writer)

unfoldable pub create_mrt_session_struct :
    ℕ → ℕ → List ℕ → List ℕ → LabelAction → ℕ → Store → Result (Store × Option ℕ)
create_mrt_session_struct src_as dst_as src_addr dst_addr wanted as_num_len st =
    create_at (empty_slot st.sessions) src_as dst_as src_addr dst_addr wanted as_num_len st

abbrev pub same_tuple : Tuple → Tuple → Bool
same_tuple s t =
    ((s.local_as2 == t.local_as2) && (s.remote_as2 == t.remote_as2))
    && (((s.local_port == t.local_port) && (s.remote_port == t.remote_port))
        && (same_bytes s.local_addr t.local_addr && same_bytes s.remote_addr t.remote_addr))

abbrev pub has_tuple : Tuple → Option MrtSession → Bool
has_tuple t none = false
has_tuple t (some s) = same_tuple s.config_in_use t

-- The loop of findSession; the source of the call is the remote end.
unfoldable pub find_from : Tuple → List (Option MrtSession) → Option ℕ
find_from t [] = none
find_from t (s ∷ l) =
    let rest = find_from t l in
    if has_tuple t s then some 0 else elim rest [ none ↦ none | some i ↦ some (suc i) ]

unfoldable pub find_session : ℕ → ℕ → ℕ → ℕ → List ℕ → List ℕ → Store → Option ℕ
find_session src_as dst_as src_port dst_port src_addr dst_addr st =
    find_from
      (record {
        local_addr = dst_addr;
        local_port = dst_port;
        local_as2 = dst_as;
        remote_addr = src_addr;
        remote_port = src_port;
        remote_as2 = src_as;
      })
      st.sessions

abbrev pub with_state : BgpState → Option MrtSession → Option MrtSession
with_state s none = none
with_state s (some m) = some (record m { state = s })

unfoldable pub change_mrt_state : ℕ → BgpState → Store → Result Store
change_mrt_state i s st = or_fault (get_elem? st.sessions i) out_of_bounds >>= λ m.
    ok (record st { sessions = set st.sessions i (with_state s m) })

-- The RIB is not freed.
abbrev pub destroy_at : ℕ → Store → Option MrtSession → Result Store
destroy_at i st none = ok st
destroy_at i st (some m) = destroy_queue_writer st.peer_queue m.peer_queue_writer >>= λ q.
    ok (record { sessions = set st.sessions i none; peer_queue = q })

unfoldable pub destroy_session : ℕ → Store → Result Store
destroy_session i st = or_fault (get_elem? st.sessions i) out_of_bounds >>= destroy_at i st
