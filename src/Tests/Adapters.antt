-- ===== src/Tests/Adapters.antt =====
-- A small USB2XXX library, and the driver of driver/toomoss.go on it.
use linbuskit.Base.{
  ℕ, ◌+◌, ◌≡◌, refl, arith, List, [], ◌∷◌, map, true, false, ◌==◌, ==_refl, if_elim, if◌then◌else◌,
  length, ok, pos,
}
use linbuskit.Simulation.{event_queue}
use linbuskit.Drivers.Action.{◌>>=◌}
use linbuskit.Drivers.Action.Repeat.{Ends}
use linbuskit.Drivers.Channels.{occurs}
use linbuskit.Drivers.Elins.{ElinsConfig}
use linbuskit.Drivers.Queues.{HoldsFrames-none}
use linbuskit.Drivers.Toomoss.Device.{
  LinExMsg, zero_msg, ToomossApi, Procs, Usb, Session, event_capacity, channel_error,
  validate_channel,
}
use linbuskit.Drivers.Toomoss.Usb.{
  no_procs, ensure_toomoss_loaded, toomoss_ready, reset_toomoss_state, load_dlls,
  load_proc_addresses, get_procs, is_scanned, usb_scan, is_opened, usb_open,
}
use linbuskit.Drivers.Toomoss.Lifetime.{fresh_device, init_channels, new_toomoss, close}
use linbuskit.Drivers.Toomoss.Traffic.{lin_ex_slave_get_data, read_event}
use linbuskit.Drivers.Toomoss.Session.{configure_elins, has_failed}
use linbuskit.Drivers.Toomoss.Session.Stopping.{StartsAndStops}
use linbuskit.Drivers.Toomoss.Session.Configured.{
  Configured, configure_elins-Configured, Stopped, close-Stopped,
}
use linbuskit.Drivers.Toomoss.Reading.{KeepsTime, Good, read_toomoss_event-Ends}
use linbuskit.Drivers.Toomoss.Batch.{Batched, read_event-Batched}
use linbuskit.Drivers.Toomoss.Calls.{
  perform, call_request, call_close, call_read, perform_toomoss_calls, refusal,
  perform_toomoss_calls-close,
}
use linbuskit.Drivers.Toomoss.Host.{
  Reach, here, next, created, used, closed, host_of, IsSingle, reached-IsSingle,
}

-- The channels that run, the messages that wait, and the time.
record Adapter : Type 0 where
  running : List ℕ
  waiting : List LinExMsg
  clock : ℕ

without : ℕ → List ℕ → List ℕ
without c [] = []
without c (d ∷ rest) = let others = without c rest in if c == d then others else d ∷ others

occurs-without :
    (c d : ℕ) (xs : List ℕ) → occurs d (without c xs) ≡ (if c == d then false else occurs d xs)
unfolding without
occurs-without c d [] = ground arith
occurs-without c d (x ∷ xs) = ground (arith, occurs-without c d xs)

-- Channel 3 cannot be set up, and channel 9 cannot be stopped.
abbrev adapter_api : ToomossApi Adapter
adapter_api = record {
  load_libusb = λ a. (false, a);
  load_usb2xxx = λ a. (true, a);
  has_proc = λ name a. true;
  free_library = λ a. (true, a);
  scan_device = λ a. ((1, 0), a);
  open_device = λ a. ((1, 0), a);
  close_device = λ a. ((1, 0), a);
  lin_ex_init = λ channel baudrate mode a. (0, a);
  master_sync = λ channel msg a. ((1, 0, msg), a);
  slave_get_data = λ channel a. ((length a.waiting, 0, a.waiting), record a { waiting = [] });
  ctrl_power_out = λ channel vbat a. ((0, 0), a);
  elins_init = λ channel baudrate mode res version a.
      if channel == 3 then ((0, 1), a) else ((0, 0), record a { running = channel ∷ a.running });
  elins_set_rev_time = λ channel time a. ((0, 0), a);
  elins_stop = λ channel a.
      if channel == 9
      then ((5, 0), a)
      else ((0, 0), record a { running = without channel a.running });
  elins_get_msg = λ channel room a. ((0, 0, []), a);
  now = λ a. a.clock;
  wait = λ d a. record a { clock = a.clock + d };
}

adapter_api-starts :
    (channel baudrate mode res version : ℕ) (a : Adapter)
    → has_failed (adapter_api.elins_init channel baudrate mode res version a).0 ≡ false
    → occurs channel (adapter_api.elins_init channel baudrate mode res version a).1.running ≡ true
adapter_api-starts channel baudrate mode res version a =
    if_elim (λ (r : (ℕ × ℕ) × Adapter). has_failed r.0 ≡ false → occurs channel r.1.running ≡ true)
      (channel == 3) (λ failed. cc) (λ failed. rw (==_refl channel) refl)

adapter_api-leaves_others :
    (channel baudrate mode res version : ℕ) (a : Adapter) (c : ℕ)
    → (channel == c) ≡ false
    → occurs c (adapter_api.elins_init channel baudrate mode res version a).1.running
      ≡ occurs c a.running
adapter_api-leaves_others channel baudrate mode res version a c other =
    if_elim (λ (r : (ℕ × ℕ) × Adapter). occurs c r.1.running ≡ occurs c a.running) (channel == 3)
      refl (rw other refl)

adapter_api-stops :
    (channel : ℕ) (a : Adapter)
    → has_failed (adapter_api.elins_stop channel a).0 ≡ false
    → occurs channel (adapter_api.elins_stop channel a).1.running ≡ false
adapter_api-stops channel a =
    if_elim (λ (r : (ℕ × ℕ) × Adapter). has_failed r.0 ≡ false → occurs channel r.1.running ≡ false)
      (channel == 9) (λ failed. cc)
      (λ failed. rw (occurs-without channel channel a.running, ==_refl channel) refl)

adapter_api-stops_only :
    (channel : ℕ) (a : Adapter) (c : ℕ)
    → (channel == c) ≡ false
    → occurs c (adapter_api.elins_stop channel a).1.running ≡ occurs c a.running
adapter_api-stops_only channel a c other =
    if_elim (λ (r : (ℕ × ℕ) × Adapter). occurs c r.1.running ≡ occurs c a.running) (channel == 9)
      refl (rw (occurs-without channel c a.running, other) refl)

abbrev adapter_lib : StartsAndStops adapter_api
adapter_lib = record {
  running = λ a c. occurs c a.running;
  init_starts = adapter_api-starts;
  init_leaves_others = adapter_api-leaves_others;
  set_keeps = λ channel time a c. refl;
  stop_stops = adapter_api-stops;
  stop_leaves_others = adapter_api-stops_only;
  close_starts_none = λ a c h. h;
  free_starts_none = λ a c h. h;
}

abbrev adapter_time : KeepsTime adapter_api
adapter_time = record { get_clock = λ channel a. omega arith; wait_moves = λ d a h. omega arith }

abbrev all_procs : Procs
all_procs = record {
  scan_device = true;
  open_device = true;
  close_device = true;
  lin_ex_init = true;
  master_sync = true;
  slave_get_data = true;
  elins_init = true;
  elins_get_msg = true;
  elins_set_rev_time = true;
  elins_stop = true;
  ctrl_power_out = true;
}

abbrev message : ℕ → LinExMsg
message id = record zero_msg { pid = id; data_len = 200 }

abbrev at_work : Session Adapter
at_work = record {
  device = record (fresh_device (0 ∷ 1 ∷ [])) { elins_channels = 2 ∷ [] };
  usb = record {
    is_loaded = true;
    procs = all_procs;
    instance_active = true;
    library = record {
      running = 2 ∷ [];
      waiting = message 0x3D ∷ message 0x7D ∷ message 5 ∷ [];
      clock = 7;
    };
  };
}

-- The last of the channels cannot be set up.
abbrev three_channels : ElinsConfig
three_channels = record {
  channels = 0 ∷ 1 ∷ 3 ∷ [];
  baudrate = 19200;
  res_enable = 1;
  version = 1;
  receive_timeout_us = 0;
}

configure_elins-Configured_example :
    Configured adapter_api adapter_lib 1 three_channels at_work
      (configure_elins adapter_api three_channels at_work)
configure_elins-Configured_example =
    configure_elins-Configured adapter_api adapter_lib 1 three_channels at_work (λ l. refl) refl
      refl

close-Stopped_example : Stopped adapter_api adapter_lib 2 (close adapter_api at_work).1.usb
close-Stopped_example = close-Stopped adapter_api adapter_lib 2 at_work refl (λ l. refl) refl refl

read_toomoss_event-Ends_example :
    Ends (Good adapter_api adapter_time 0) (read_event adapter_api 10 (pos 9) 0 at_work)
read_toomoss_event-Ends_example =
    read_toomoss_event-Ends adapter_api adapter_time 10 (pos 9) 0 at_work
      (HoldsFrames-none event_capacity) (omega arith)

read_event-Batched_example :
    Ends
      (Batched adapter_api 0
        (message 0x3D)
        (message 0x7D ∷ message 5 ∷ [])
        (lin_ex_slave_get_data adapter_api 0 at_work).1)
      (read_event adapter_api 1 (pos 0) 0 at_work)
unfolding channel_error lin_ex_slave_get_data event_queue validate_channel ◌>>=◌
read_event-Batched_example =
    read_event-Batched adapter_api 0 0 (pos 0) at_work
      (lin_ex_slave_get_data adapter_api 0 at_work).1 (message 0x3D) (message 0x7D ∷ message 5 ∷ [])
      refl refl refl

perform_toomoss_calls-close_example :
    perform_toomoss_calls adapter_api
      (call_request 0x3D 0 ∷ call_read 3 (pos 1) 0 ∷ call_close ∷ [])
      (close adapter_api at_work).1
    ≡ (
      map
          (refusal (close adapter_api at_work).1.usb.procs (close adapter_api at_work).0)
          (call_request 0x3D 0 ∷ call_read 3 (pos 1) 0 ∷ call_close ∷ []),
      (close adapter_api at_work).1,
    )
perform_toomoss_calls-close_example =
    perform_toomoss_calls-close adapter_api
      (call_request 0x3D 0 ∷ call_read 3 (pos 1) 0 ∷ call_close ∷ []) at_work refl

abbrev unplugged : Usb Adapter
unplugged = record {
  is_loaded = false;
  procs = no_procs;
  instance_active = false;
  library = record { running = []; waiting = []; clock = 0 };
}

abbrev first_session : Session Adapter
first_session = record {
  device = fresh_device (0 ∷ []);
  usb = (new_toomoss adapter_api (0 ∷ []) 1 unplugged).1;
}

made :
    new_toomoss adapter_api (0 ∷ []) 1 unplugged ≡ (ok (fresh_device (0 ∷ [])), first_session.usb)
unfolding new_toomoss ensure_toomoss_loaded toomoss_ready reset_toomoss_state load_dlls
    load_proc_addresses get_procs is_scanned usb_scan is_opened usb_open init_channels ◌>>=◌
made = refl

-- A device is made, asked for a response, and closed.
made_and_closed :
    Reach adapter_api
      (record { usb = unplugged; devices = [] })
      (host_of adapter_api []
        (close adapter_api (perform adapter_api (call_request 0x3D 0) first_session).1).1
        [])
made_and_closed =
    next
      (next
        (next here (
          created (0 ∷ []) 1 (record { usb = unplugged; devices = [] }) (fresh_device (0 ∷ []))
            first_session.usb made))
        (used (call_request 0x3D 0) [] first_session [] refl))
      (closed [] (perform adapter_api (call_request 0x3D 0) first_session).1 [])

reached-IsSingle_example : IsSingle adapter_api (
    host_of adapter_api []
      (close adapter_api (perform adapter_api (call_request 0x3D 0) first_session).1).1
      [])
reached-IsSingle_example = reached-IsSingle adapter_api unplugged refl made_and_closed
