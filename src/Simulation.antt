-- ===== src/Simulation.antt =====
-- The simulated bus of tplin/simulation.go. Events are values, so `deepCopyEvent` is a copy that
-- changes nothing. A driver is the master's, or a slave's by its place in the list of slave drivers.
-- A read with a timeout on an empty queue gives nothing: what other goroutines send while it waits
-- is a later step.
pub mod Drain
pub mod Delivery
use linbuskit.Base.{
  ℕ, zero, suc, ◌+◌, ◌≡◌, List, [], ◌∷◌, ◌++◌, Option, none, some, Bool, true, false, ◌&&◌, ltb,
  ◌==◌, if◌then◌else◌, length, Result, ok, ℤ, map,
}
use linbuskit.Lin.{LinEvent, Direction, rx, tx, DriverError, Driver, World}
use linbuskit.Transport.State.{send_or_drop}

-- The event queues of one driver by channel. A channel that is not there has an empty queue.
abbrev pub EventQueues : Type 0
EventQueues = List (ℕ × List LinEvent)

unfoldable pub event_queue : ℕ → EventQueues → List LinEvent
event_queue channel [] = []
event_queue channel ((c, q) ∷ rest) = if c == channel then q else event_queue channel rest

unfoldable pub set_queue : ℕ → List LinEvent → EventQueues → EventQueues
set_queue channel q [] = (channel, q) ∷ []
set_queue channel q ((c, old) ∷ rest) =
    if c == channel then (c, q) ∷ rest else (c, old) ∷ set_queue channel q rest

abbrev pub queue_capacity : ℕ
queue_capacity = 20

-- A full queue drops the event.
unfoldable pub push_event : LinEvent → EventQueues → EventQueues
push_event e qs = set_queue e.channel (send_or_drop queue_capacity (event_queue e.channel qs) e) qs

pub record Key : Type 0 where
  pub channel : ℕ
  pub frame_id : ℕ

pub record Network : Type 0 where
  pub slave_responses : List (Key × LinEvent)
  pub master_driver : Option EventQueues
  pub slave_drivers : List EventQueues
  pub clock : ℕ

unfoldable pub new_network : ℕ → Network
new_network clock = record {
  slave_responses = [];
  master_driver = none;
  slave_drivers = [];
  clock = clock;
}

abbrev pub same_key : Key → Key → Bool
same_key a b = a.channel == b.channel && a.frame_id == b.frame_id

unfoldable pub lookup_response : Key → List (Key × LinEvent) → Option LinEvent
lookup_response k [] = none
lookup_response k ((j, e) ∷ rest) = if same_key j k then some e else lookup_response k rest

unfoldable pub delete_response : Key → List (Key × LinEvent) → List (Key × LinEvent)
delete_response k [] = []
delete_response k ((j, e) ∷ rest) =
    if same_key j k then delete_response k rest else (j, e) ∷ delete_response k rest

-- An assignment to a key replaces what stood there.
unfoldable pub insert_response : Key → LinEvent → List (Key × LinEvent) → List (Key × LinEvent)
unfolding delete_response
insert_response k e m = (k, e) ∷ delete_response k m

-- A copy of the event as one side sees it.
abbrev pub seen_as : Direction → ℕ → LinEvent → LinEvent
seen_as direction time e = record e { direction = direction; timestamp = time }

abbrev pub push_master : LinEvent → Option EventQueues → Option EventQueues
push_master e none = none
push_master e (some qs) = some (push_event e qs)

abbrev pub push_all : LinEvent → List EventQueues → List EventQueues
push_all e [] = []
push_all e (qs ∷ rest) = push_event e qs ∷ push_all e rest

-- `writeMessage` of the network: a sent event for the master, a received one for every slave.
unfoldable pub broadcast : LinEvent → Network → Network
broadcast e n = record n {
  master_driver = push_master (seen_as tx n.clock e) n.master_driver;
  slave_drivers = push_all (seen_as rx n.clock e) n.slave_drivers;
}

abbrev pub deliver_response : Option LinEvent → Key → Network → Network
deliver_response none k n = n
deliver_response (some e) k n = record n {
  slave_responses = delete_response k n.slave_responses;
  master_driver = push_master (seen_as rx n.clock e) n.master_driver;
  slave_drivers = push_all (seen_as tx n.clock e) n.slave_drivers;
}

-- `requestSlaveResponse` of the network: the scheduled response is sent once.
unfoldable pub request_response : ℕ → ℕ → Network → Network
request_response frame_id channel n =
    let k : Key = record { channel = channel; frame_id = frame_id } in
    deliver_response (lookup_response k n.slave_responses) k n

-- `scheduleSlaveResponse` of the network.
unfoldable pub schedule_response : LinEvent → Network → Network
schedule_response e n = record n {
  slave_responses =
      insert_response (record { channel = e.channel; frame_id = e.event_id }) e n.slave_responses;
}

abbrev or_new : Option EventQueues → EventQueues
or_new none = []
or_new (some qs) = qs

unfoldable pub get_master_driver : Network → Network
get_master_driver n = record n { master_driver = some (or_new n.master_driver) }

-- The driver is the last of the list.
unfoldable pub create_slave_driver : Network → Network
create_slave_driver n = record n { slave_drivers = n.slave_drivers ++ [] ∷ [] }

-- `ReadEvent` on one driver's queues.
abbrev pub pop_queue : ℕ → List LinEvent → EventQueues → Option LinEvent × EventQueues
pop_queue channel [] qs = (none, qs)
pop_queue channel (e ∷ rest) qs = (some e, set_queue channel rest qs)

unfoldable pub read_queue : ℕ → EventQueues → Option LinEvent × EventQueues
read_queue channel qs = pop_queue channel (event_queue channel qs) qs

abbrev pub read_master : ℕ → Option EventQueues → Option LinEvent × Option EventQueues
read_master channel none = (none, none)
read_master channel (some qs) = ((read_queue channel qs).0, some (read_queue channel qs).1)

abbrev pub read_slave : ℕ → ℕ → List EventQueues → Option LinEvent × List EventQueues
read_slave i channel [] = (none, [])
read_slave zero channel (qs ∷ rest) = ((read_queue channel qs).0, (read_queue channel qs).1 ∷ rest)
read_slave (suc i) channel (qs ∷ rest) =
    ((read_slave i channel rest).0, qs ∷ (read_slave i channel rest).1)

-- The master's driver: it writes and requests, and schedules nothing.
unfoldable pub master_world : World Network
unfolding broadcast request_response
master_world = record {
  driver = record {
    read_event = λ timeout channel n. (
      ok (read_master channel n.master_driver).0,
      record n { master_driver = (read_master channel n.master_driver).1 },
    );
    write_message = λ e channel n. (none, broadcast (record e { channel = channel }) n);
    schedule_slave_response = λ e channel n. (none, n);
    request_slave_response = λ id channel n. (none, request_response id channel n);
  };
  now = λ n. n.clock;
}

-- The i-th slave's driver: it schedules responses, and neither writes nor requests.
unfoldable pub slave_world : ℕ → World Network
unfolding schedule_response
slave_world i = record {
  driver = record {
    read_event = λ timeout channel n. (
      ok (read_slave i channel n.slave_drivers).0,
      record n { slave_drivers = (read_slave i channel n.slave_drivers).1 },
    );
    write_message = λ e channel n. (none, n);
    schedule_slave_response =
        λ e channel n. (none, schedule_response (record e { channel = channel }) n);
    request_slave_response = λ id channel n. (none, n);
  };
  now = λ n. n.clock;
}
