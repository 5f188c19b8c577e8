-- ===== src/Session/State.antt =====
-- Peering/bgpstates.h, bgpevents.h, bgppacket.h and peersession.h: the session and what it exchanges.
use bgpmon.Base.{ℕ, Bool, true, false, List, Option, ◌==◌}

pub data BgpState : Type 0 where
  error idle connect active open_sent open_confirm established mrt_established : BgpState

-- The events that the code below raises or tests; the others of the enumeration are `unused`.
pub data BgpEvent : Type 0 where
  none_event manual_stop automatic_start : BgpEvent
  connect_retry_timer_expires hold_timer_expires keepalive_timer_expires : BgpEvent
  tcp_connection_confirmed tcp_connection_fails : BgpEvent
  bgp_open bgp_header_err bgp_open_msg_err bgp_unsupported_capability bgp_fsm_err : BgpEvent
  notification_message_ver_err notification_message keepalive_msg update_msg update_msg_err :
      BgpEvent
  unused : BgpEvent

abbrev pub is_none : BgpEvent → Bool
is_none none_event = true
is_none _ = false

abbrev pub is_established : BgpState → Bool
is_established established = true
is_established _ = false

abbrev pub is_idle : BgpState → Bool
is_idle idle = true
is_idle _ = false

-- The number of a state in the enumeration.
abbrev pub number_of : BgpState → ℕ
number_of error = 0
number_of idle = 1
number_of connect = 2
number_of active = 3
number_of open_sent = 4
number_of open_confirm = 5
number_of established = 6
number_of mrt_established = 7

abbrev pub same_state : BgpState → BgpState → Bool
same_state a b = number_of a == number_of b

-- The bytes of `value` after the capability's length are 0.
pub record Capability : Type 0 where
  pub code : ℕ
  pub value : List ℕ

pub data Action : Type 0 where
  refuse allow require : Action

pub record PeerCapabilityRequirement : Type 0 where
  pub code : ℕ
  pub action : Action
  pub check_value : Option (List ℕ)  -- `none` is a checkValueLen of -1
  pub flag : Bool

-- A message on the connection, as far as it is built here.
pub data Packet : Type 0 where
  type_open type_keepalive type_update : Packet
  type_notification : ℕ → ℕ → Packet  -- code, subcode; 0, 0 for a received one

-- What the session writes to the peer queue.
pub data Bmf : Type 0 where
  from_peer to_peer : Packet → Bmf
  state_change : BgpState → BgpState → BgpEvent → Bmf  -- old state, new state, reason

-- The fields of SessionStruct, with those of FSM, Statistics and ConfigInUse, that are used here.
-- A timer is a time, 0 when it is off; a socket of -1 is `none`; `queued` is what was written to the
-- peer queue, the latest first.
pub record Session : Type 0 where
  pub socket : Option ℕ
  pub state : BgpState
  pub reason : BgpEvent
  pub connect_retry_int : ℕ
  pub connect_retry_timer : ℕ
  pub keepalive_int : ℕ
  pub keepalive_timer : ℕ
  pub large_hold_time : ℕ
  pub hold_time : ℕ
  pub hold_timer : ℕ
  pub route_refresh_type : ℕ
  pub as_num_len : ℕ
  pub peer_capabilities : Option (List Capability)
  pub connect_retry_count : ℕ
  pub session_down_count : ℕ
  pub last_down_time : ℕ
  pub message_rcvd : ℕ
  pub establish_time : ℕ
  pub last_route_refresh : ℕ
  pub remote_as2 : ℕ
  pub remote_bgp_ver : ℕ
  pub remote_bgp_id : ℕ
  pub remote_min_holdtime : ℕ
  pub announce_caps : List Capability
  pub cap_requirements : List PeerCapabilityRequirement
  pub queued : List Bmf
  pub reconnect_flag : Bool
