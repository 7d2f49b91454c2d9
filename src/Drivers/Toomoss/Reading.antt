-- ===== src/Drivers/Toomoss/Reading.antt =====
-- ReadEvent of driver/toomoss.go returns, and what it returns.
use linbuskit.Base.{
  ℕ, ◌+◌, ◌-◌, ◌≤◌, ◌<◌, ◌≡◌, refl, arith, List, [], ◌∷◌, Option, none, some, ◌||◌, leb,
  length-take, Bool-cases, inl, inr, Result, ok, err, ℤ, pos_part, is_nonpositive, min,
}
use linbuskit.Lin.{LinEvent}
use linbuskit.Transport.Config.{millisecond}
use linbuskit.Simulation.{event_queue}
use linbuskit.Drivers.Action.{guard}
use linbuskit.Drivers.Action.Preserves.{Preserves, Preserves-guard, preserves_rules}
use linbuskit.Drivers.Action.Repeat.{Turn, Ends, Progress, repeat-Ends}
use linbuskit.Drivers.Queues.{IsFrame, HoldsFrames, GivesFrame, HoldsFrames-send, HoldsFrames-take}
use linbuskit.Drivers.Toomoss.Device.{
  LinExMsg, ToomossApi, ToomossError, Session, call, event_capacity, channel_error,
  validate_channel, enqueue_event,
}
use linbuskit.Drivers.Toomoss.Traffic.{
  Outcome, toomoss_event, lin_ex_slave_get_data, queue_messages, pause, on_messages, read_queued,
  read_turn, read_checked, read_event,
}

-- What the reads rely on: the clock does not go back, and moves on in a pause.
pub record KeepsTime {S : Type 0} (api : ToomossApi S) : Type 0 where
  pub get_clock : (channel : ℕ) (l : S) → api.now l ≤ api.now (api.slave_get_data channel l).1
  pub wait_moves : (d : ℕ) (l : S) → 0 < d → api.now l < api.now (api.wait d l)

toomoss_event-IsFrame :
    (m : LinExMsg) (channel now : ℕ) → IsFrame channel (toomoss_event m channel now)
unfolding toomoss_event
toomoss_event-IsFrame m channel now = record {
  same_channel = refl;
  frame_id = omega arith;
  payload = ground (arith, length-take (min m.data_len 8) m.data_bytes);
}

module _ {S : Type 0} (api : ToomossApi S) (lib : KeepsTime api) where
  abbrev pub Holds : Session S → Type 0
  Holds s = HoldsFrames event_capacity s.device.event_chans

  abbrev pub time_left : ℕ → Session S → ℕ
  time_left deadline s = deadline - api.now s.usb.library

  abbrev pub Good : ℕ → Outcome → Session S → Type 0
  Good channel r s = GivesFrame channel r × Holds s

  queue_messages-Holds :
      (rest : List LinExMsg) (channel : ℕ) (s : Session S)
      → Holds s
      → Holds (queue_messages api rest channel s)
  unfolding queue_messages enqueue_event
  queue_messages-Holds [] channel s h = h
  queue_messages-Holds (m ∷ rest) channel s h =
      let e = toomoss_event m channel (api.now s.usb.library) in
      queue_messages-Holds rest channel (enqueue_event channel e s) (
        HoldsFrames-send event_capacity channel e s.device.event_chans
          (toomoss_event-IsFrame m channel (api.now s.usb.library)) h)

  module _ (timeout : ℤ) (deadline channel : ℕ) where
    abbrev Moves : ℕ → Turn Outcome × Session S → Type 0
    Moves before t = Progress Holds (Good channel) (time_left deadline) before t

    -- Frames in the queues, and no more time than before.
    abbrev Within : ℕ → Session S → Type 0
    Within before s = Holds s × (time_left deadline s ≤ before)

    lin_ex_slave_get_data-Within :
        (before : ℕ) → Preserves (Within before) (lin_ex_slave_get_data api channel)
    unfolding lin_ex_slave_get_data validate_channel
    lin_ex_slave_get_data-Within before =
        let checked : Preserves (Within before) (validate_channel channel) = record {
          after = λ s w.
              (Preserves-guard {P = Within before} (channel_error channel s.device)).after s w;
        } in
        let called : Preserves (Within before) (call (api.slave_get_data channel)) = record {
          after =
              λ s (h, most). let clock = lib.get_clock channel s.usb.library in (h, omega arith);
        } in
        search preserves_rules depth 14

    pause-Moves :
        (before : ℕ) (s : Session S) → Within before s → Moves before (pause api timeout deadline s)
    pause-Moves before s (h, most) =
        elim (Bool-cases (is_nonpositive timeout || leb deadline (api.now s.usb.library))) [
          | inl late ↦ rw (late, pause) (tt, h)
          | inr early ↦
              let left : api.now s.usb.library < deadline = ground arith in
              let moved = lib.wait_moves millisecond s.usb.library (omega arith) in
              rw (early, pause) (h, omega arith)
        ]

    on_messages-Moves :
        (r : Result ToomossError (List LinExMsg)) (before : ℕ) (s : Session S)
        → Within before s
        → Moves before (on_messages api timeout deadline channel (r, s))
    on_messages-Moves (err e) before s (h, most) = (tt, h)
    on_messages-Moves (ok []) before s w = pause-Moves before s w
    on_messages-Moves (ok (m ∷ rest)) before s (h, most) =
        let s' = queue_messages api rest channel s in
        (
          toomoss_event-IsFrame m channel (api.now s'.usb.library),
          queue_messages-Holds rest channel s h,
        )

    read_turn-Moves :
        (s : Session S)
        → Holds s
        → Moves (time_left deadline s) (read_turn api timeout deadline channel s)
    unfolding read_turn
    read_turn-Moves s h = go (event_queue channel s.device.event_chans) refl
      where
        go :
            (q : List LinEvent)
            → event_queue channel s.device.event_chans ≡ q
            → Moves (time_left deadline s) (read_queued api timeout deadline channel q s)
        go [] same =
            let (r, s') = lin_ex_slave_get_data api channel s in
            on_messages-Moves r (time_left deadline s) s'
              ((lin_ex_slave_get_data-Within (time_left deadline s)).after s (h, omega arith))
        go (e ∷ rest) same =
            HoldsFrames-take event_capacity channel e rest s.device.event_chans same h

  -- From queues that hold frames of their channels, ReadEvent of the Toomoss driver returns after at
  -- most one turn for each nanosecond of the timeout, and one more, whatever the library puts into its
  -- messages: an error, nothing, or a frame of the channel with an ID of six bits and at most eight
  -- bytes. The queues hold frames again.
  pub read_toomoss_event-Ends :
      (fuel : ℕ) (timeout : ℤ) (channel : ℕ) (s : Session S)
      → HoldsFrames event_capacity s.device.event_chans
      → pos_part timeout < fuel
      → Ends (Good channel) (read_event api fuel timeout channel s)
  unfolding read_event validate_channel
  read_toomoss_event-Ends fuel timeout channel s h enough = go (channel_error channel s.device)
    where
      go :
          (o : Option ToomossError)
          → Ends (Good channel) (read_checked api fuel timeout channel (guard o s))
      go none =
          let deadline = api.now s.usb.library + pos_part timeout in
          repeat-Ends Holds (Good channel) (time_left deadline)
            (read_turn api timeout deadline channel) (read_turn-Moves timeout deadline channel) fuel
            s h (omega arith)
      go (some e) = (tt, h)
