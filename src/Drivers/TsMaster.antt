-- ===== src/Drivers/TsMaster.antt =====
-- dispatchLIN of driver/tsmaster.go: what becomes of a frame that the TSMaster library reports. The
-- two readings of the clock in one call are one time here, and logging is left out.
pub mod Dispatch
pub mod Methods
pub mod Queued
pub mod Break
use linbuskit.Base.{
  ℕ, zero, suc, ◌+◌, ◌*◌, ◌%◌, ℤ, pos, negsuc, List, [], ◌∷◌, Option, none, some, Bool, true, false,
  not, ◌&&◌, ltb, leb, ◌==◌, if◌then◌else◌, length, take, copy, min,
}
use linbuskit.Lin.{
  LinEvent, Direction, rx, tx, is_rx, is_tx, ChecksumType, classic_checksum, enhanced_checksum,
}
use linbuskit.Transport.Config.{millisecond, master_diagnostic_frame_id, slave_diagnostic_frame_id}
use linbuskit.Transport.State.{send_or_drop}
use linbuskit.Simulation.{EventQueues, event_queue, set_queue}

-- `FDLC` is a byte without sign, so that the source's test for a negative length never holds.
pub record TsMasterLin : Type 0 where
  pub dlc : ℕ
  pub identifier : ℕ
  pub properties : ℕ
  pub err_status : ℕ
  pub data_bytes : List ℕ

pub record LastFrame : Type 0 where
  pub channel : ℕ
  pub id : ℕ
  pub direction : Direction
  pub count : ℕ
  pub data_bytes : List ℕ
  pub time : ℕ

-- A last frame that is not valid is `none`. The event channels are queues by channel.
pub record TsMaster : Type 0 where
  pub last_frame : Option LastFrame
  pub queues : EventQueues

abbrev pub event_capacity : ℕ
event_capacity = 128

unfoldable pub checksum_type_from_id : ℕ → ChecksumType
checksum_type_from_id id =
    if (if id == master_diagnostic_frame_id then true else id == slave_diagnostic_frame_id)
    then classic_checksum
    else enhanced_checksum

abbrev pub dlc_of : TsMasterLin → ℕ
dlc_of m = min m.dlc (length m.data_bytes)

abbrev pub no_data : List ℕ
no_data = 0 ∷ 0 ∷ 0 ∷ 0 ∷ 0 ∷ 0 ∷ 0 ∷ 0 ∷ []

-- The bytes of a payload against those that stand first in the last frame's.
abbrev pub same_bytes : List ℕ → List ℕ → Bool
same_bytes [] data_bytes = true
same_bytes (b ∷ payload) [] = false
same_bytes (b ∷ payload) (d ∷ data_bytes) = if d == b then same_bytes payload data_bytes else false

abbrev pub same_direction : Direction → Direction → Bool
same_direction rx rx = true
same_direction rx tx = false
same_direction tx rx = false
same_direction tx tx = true

abbrev pub window : ℕ
window = 8 * millisecond

abbrev pub is_same : Option LastFrame → ℕ → ℕ → Direction → List ℕ → ℕ → Bool
is_same none channel id direction payload now = false
is_same (some last) channel id direction payload now =
    last.channel == channel
    && (last.id == id
        && (same_direction last.direction direction
            && (last.count == length payload
                && (ltb now (last.time + window) && same_bytes payload last.data_bytes))))

-- Whether the frame is the last one again, which it replaces in any case.
unfoldable pub is_duplicate : ℕ → ℕ → Direction → List ℕ → ℕ → TsMaster → Bool × TsMaster
is_duplicate channel id direction payload now t = (
  is_same t.last_frame channel id direction payload now,
  record t {
    last_frame = some (record {
      channel = channel;
      id = id;
      direction = direction;
      count = length payload;
      data_bytes = copy no_data payload;
      time = now;
    });
  },
)

-- The direction: a diagnostic answer counts as received also where it is marked as sent.
abbrev pub direction_of : TsMasterLin → Direction
direction_of m =
    let id = m.identifier % 64 in
    let slave_response =
      id == slave_diagnostic_frame_id && (ltb 0 (dlc_of m) && m.err_status == 0) in
    if not (m.properties % 2 == 0) && not slave_response then tx else rx

abbrev pub received : TsMasterLin → ℕ → ℕ → LinEvent
received m channel now = record {
  channel = channel;
  event_id = m.identifier % 64;
  event_payload = take (dlc_of m) m.data_bytes;
  checksum_type = checksum_type_from_id (m.identifier % 64);
  direction = direction_of m;
  timestamp = now;
}

abbrev pub queue_event : LinEvent → TsMaster → TsMaster
queue_event e t = record t {
  queues =
      set_queue e.channel (send_or_drop event_capacity (event_queue e.channel t.queues) e) t.queues;
}

-- What is behind the early returns.
abbrev pub dispatch_received : TsMasterLin → ℕ → ℕ → TsMaster → TsMaster
dispatch_received m channel now t =
    let (duplicate, t') =
      is_duplicate channel (m.identifier % 64) (direction_of m) (take (dlc_of m) m.data_bytes) now
        t in
    if duplicate then t' else queue_event (received m channel now) t'

unfoldable pub dispatch_lin : TsMasterLin → ℕ → ℕ → TsMaster → TsMaster
unfolding is_duplicate
dispatch_lin m channel now t =
    if leb 0x3E (m.identifier % 64)
    then t
    else if is_tx (direction_of m)
    then t
    else if dlc_of m == 0
    then t
    else dispatch_received m channel now t
