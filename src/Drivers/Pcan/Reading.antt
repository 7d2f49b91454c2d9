-- ===== src/Drivers/Pcan/Reading.antt =====
-- ReadEvent of driver/pcan.go returns, and what it returns.
use linbuskit.Base.{
  ℕ, ◌+◌, ◌-◌, ◌≤◌, ◌<◌, ◌≡◌, refl, subst, arith, List, [], ◌∷◌, Option, none, some, not, ◌&&◌,
  ◌||◌, leb, ◌==◌, length, length-take, Bool-cases, Option-cases, inl, inr, ℤ, pos_part,
  is_nonpositive, min, ==→eq, if_elim,
}
use linbuskit.Lin.{LinEvent}
use linbuskit.Simulation.{event_queue}
use linbuskit.Drivers.Action.Repeat.{Turn, Ends, Progress, repeat-Ends}
use linbuskit.Drivers.Queues.{IsFrame, HoldsFrames, GivesFrame, HoldsFrames-send, HoldsFrames-take}
use linbuskit.Drivers.Pcan.{PcanReceiveMessage, pcan_event}
use linbuskit.Drivers.Pcan.Device.{
  Pcan, PcanApi, PcanReceived, find, pcan_event_queue_size, validate_state, validate_channel,
  hardware_of, enqueue_event, is_closed_driver,
}
use linbuskit.Drivers.Pcan.Traffic.{
  Outcome, read_result, read_one, event_on, pass_on, pause, on_read, read_hardware, read_queued,
  read_turn, read_event, pcan_read_poll_delay,
}
use linbuskit.Drivers.Action.{◌>>=◌}

-- What the reads rely on: the library has finitely many messages, of at most eight bytes; a read that
-- succeeds takes one; the clock does not go back, and moves on in a pause.
pub record IsDraining {S : Type 0} (api : PcanApi S) : Type 0 where
  pub pending : S → ℕ
  pub read_takes :
      (client : ℕ) (s : S) → (api.read client s).0.0 ≡ 0 → pending (api.read client s).1 < pending s
  pub read_keeps : (client : ℕ) (s : S) → pending (api.read client s).1 ≤ pending s
  pub read_clock : (client : ℕ) (s : S) → api.now s ≤ api.now (api.read client s).1
  pub read_data : (client : ℕ) (s : S) → length (api.read client s).0.1.message.data_bytes ≤ 8
  pub wait_moves : (d : ℕ) (s : S) → 0 < d → api.now s < api.now (api.wait d s)
  pub wait_keeps : (d : ℕ) (s : S) → pending (api.wait d s) ≤ pending s

-- An event, if there is one, is a frame of its channel.
abbrev FitsOption : Option LinEvent → Type 0
FitsOption none = Unit {0}
FitsOption (some e) = IsFrame e.channel e

pcan_event-IsFrame :
    (m : PcanReceiveMessage) (channel now : ℕ)
    → length m.data_bytes ≤ 8
    → IsFrame channel (pcan_event m channel now)
unfolding pcan_event
pcan_event-IsFrame m channel now h = record {
  same_channel = refl;
  frame_id = omega arith;
  payload = omega (arith, length-take (min m.byte_count (length m.data_bytes)) m.data_bytes);
}

event_on-Fits :
    (o : Option ℕ) (m : PcanReceived) (now : ℕ)
    → length m.message.data_bytes ≤ 8
    → FitsOption (event_on o m now)
unfolding pcan_event
event_on-Fits none m now h = tt
event_on-Fits (some channel) m now h =
    if_elim FitsOption (not (m.kind == 0)) tt (
      if_elim FitsOption (not (m.error_flags == 0)) tt (pcan_event-IsFrame m.message channel now h))

module _ {S : Type 0} (api : PcanApi S) (lib : IsDraining api) where
  abbrev pub Holds : Pcan S → Type 0
  Holds p = HoldsFrames pcan_event_queue_size p.event_chans

  -- Messages to come, and time left.
  abbrev pub measure : ℕ → Pcan S → ℕ
  measure deadline p = lib.pending p.library + (deadline - api.now p.library)

  abbrev pub Good : ℕ → Outcome → Pcan S → Type 0
  Good channel r p = GivesFrame channel r × Holds p

  module _ (timeout : ℤ) (deadline channel : ℕ) where
    abbrev Moves : ℕ → Turn Outcome × Pcan S → Type 0
    Moves before t = Progress Holds (Good channel) (measure deadline) before t

    pass_on-Moves :
        (o : Option LinEvent) (before : ℕ) (p : Pcan S)
        → FitsOption o
        → Holds p
        → measure deadline p < before
        → Moves before (pass_on channel o p)
    unfolding enqueue_event
    pass_on-Moves none before p fits h less = (h, less)
    pass_on-Moves (some e) before p fits h less = elim (Bool-cases (e.channel == channel)) [
      | inl same ↦
          rw (same, pass_on) (subst (λ c. IsFrame c e) (==→eq e.channel channel same) fits, h)
      | inr other ↦
          rw (other, pass_on)
            (HoldsFrames-send pcan_event_queue_size e.channel e p.event_chans fits h, less)
    ]

    pause-Moves :
        (before : ℕ) (p : Pcan S)
        → Holds p
        → measure deadline p ≤ before
        → Moves before (pause api timeout deadline p)
    pause-Moves before p h most =
        elim (Bool-cases (is_nonpositive timeout || leb deadline (api.now p.library))) [
          | inl late ↦ rw (late, pause) (tt, h)
          | inr early ↦
              let left : api.now p.library < deadline = ground arith in
              let d = min (deadline - api.now p.library) pcan_read_poll_delay in
              let moved = lib.wait_moves d p.library (omega arith) in
              let kept = lib.wait_keeps d p.library in rw (early, pause) (h, omega arith)
        ]

    on_library :
        (p : Pcan S)
        → Holds p
        → let (r, s') = api.read p.client p.library in
          Moves
            (measure deadline p)
            (on_read api timeout deadline channel (read_result r, record p { library = s' }))
    on_library p h =
        let (r, s') = api.read p.client p.library in
        let p' = record p { library = s' } in
        let taken = lib.read_takes p.client p.library in
        let kept = lib.read_keeps p.client p.library in
        let clock = lib.read_clock p.client p.library in
        let fits = lib.read_data p.client p.library in
        elim (Bool-cases (r.0 == 3)) [
          | inl empty ↦
              rw (empty, read_result) (pause-Moves (measure deadline p) p' h (omega arith))
          | inr other ↦ elim (Bool-cases (r.0 == 0)) [
            | inl read ↦
                let fewer = taken (==→eq r.0 0 read) in
                rw (other, read, read_result)
                  (pass_on-Moves
                    (event_on (find r.1.hardware p.channel_by_hardware) r.1 (api.now s'))
                    (measure deadline p) p'
                    (event_on-Fits (find r.1.hardware p.channel_by_hardware) r.1 (api.now s') fits)
                    h (omega arith))
            | inr failed ↦ rw (other, failed, read_result) (tt, h)
          ]
        ]

    read_hardware-Moves :
        (p : Pcan S)
        → Holds p
        → Moves (measure deadline p) (read_hardware api timeout deadline channel p)
    unfolding read_one validate_state ◌>>=◌
    read_hardware-Moves p h =
        elim (Bool-cases (not (is_nonpositive timeout) && leb deadline (api.now p.library))) [
          | inl late ↦ rw (late, read_hardware) (tt, h)
          | inr early ↦ elim (Bool-cases (is_closed_driver p)) [
            | inl gone ↦ rw (early, gone, read_hardware) (tt, h)
            | inr there ↦ rw (early, there, read_hardware) (on_library p h)
          ]
        ]

    read_turn-Moves :
        (p : Pcan S)
        → Holds p
        → Moves (measure deadline p) (read_turn api timeout deadline channel p)
    unfolding read_turn
    read_turn-Moves p h = go (event_queue channel p.event_chans) refl
      where
        go :
            (q : List LinEvent)
            → event_queue channel p.event_chans ≡ q
            → Moves (measure deadline p) (read_queued api timeout deadline channel q p)
        go [] same = read_hardware-Moves p h
        go (e ∷ rest) same =
            HoldsFrames-take pcan_event_queue_size channel e rest p.event_chans same h

  -- From queues that hold frames of their channels, ReadEvent returns after at most one turn for each
  -- message that is to come and each nanosecond of the timeout, and one more: an error, nothing, or a
  -- frame of the channel with an ID of six bits and at most eight bytes. The queues hold frames again.
  pub read_event-Ends :
      (fuel : ℕ) (timeout : ℤ) (channel : ℕ) (p : Pcan S)
      → HoldsFrames pcan_event_queue_size p.event_chans
      → lib.pending p.library + pos_part timeout < fuel
      → Ends (Good channel) (read_event api fuel timeout channel p)
  unfolding read_event validate_channel validate_state hardware_of ◌>>=◌
  read_event-Ends fuel timeout channel p h enough = elim (Bool-cases (is_closed_driver p)) [
    | inl gone ↦ rw (gone, read_event) (tt, h)
    | inr there ↦ elim (Option-cases (find channel p.hardware_by_channel)) [
      | inl missing ↦ rw (there, missing, read_event) (tt, h)
      | inr (hardware, found) ↦
          let deadline = api.now p.library + pos_part timeout in
          rw (there, found, read_event)
            (repeat-Ends Holds (Good channel) (measure deadline)
              (read_turn api timeout deadline channel) (read_turn-Moves timeout deadline channel)
              fuel p h (omega arith))
    ]
  ]
