-- ===== src/Drivers/Vector/Reading.antt =====
-- ReadEvent of driver/vector.go returns, and what it returns.
use linbuskit.Base.{
  ℕ, ◌+◌, ◌-◌, ◌≤◌, ◌<◌, ◌≡◌, ◌≢◌, refl, subst, arith, List, [], ◌∷◌, Option, none, some, ◌||◌, ltb,
  leb, ◌==◌, length-take, Bool-cases, Option-cases, inl, inr, ok, err, ℤ, pos_part, is_nonpositive,
  min, ==→eq, if_elim,
}
use linbuskit.Lin.{LinEvent, ChecksumType}
use linbuskit.Simulation.{event_queue}
use linbuskit.Drivers.Action.{◌>>=◌}
use linbuskit.Drivers.Action.Repeat.{Turn, Ends, Progress, repeat-Ends}
use linbuskit.Drivers.Queues.{IsFrame, HoldsFrames, GivesFrame, HoldsFrames-send, HoldsFrames-take}
use linbuskit.Drivers.Pcan.Device.{find}
use linbuskit.Drivers.Vector.Device.{
  Vector, VectorApi, XlEvent, XlLinMessage, lookup, vector_event_queue_size, xl_status,
  validate_open, validate_channel, known_channel, enqueue_event, is_closed_driver,
}
use linbuskit.Drivers.Vector.Traffic.{
  Outcome, decode_vector_lin_event, some_event, has_crc_error, event_of, received, receive_one,
  read_one, pause, on_read, read_queued, read_turn, read_event, vector_receive_poll_delay,
}

-- What the reads rely on: the library has finitely many events; a receive that succeeds with an
-- event takes one; the clock does not go back, and moves on in a pause.
pub record IsDraining {S : Type 0} (api : VectorApi S) : Type 0 where
  pub pending : S → ℕ
  pub receive_takes :
      (port : ℤ) (s : S)
      → xl_status (api.receive port s).0.0 ≡ 0
      → (api.receive port s).0.1.0 ≢ 0
      → pending (api.receive port s).1 < pending s
  pub receive_keeps : (port : ℤ) (s : S) → pending (api.receive port s).1 ≤ pending s
  pub receive_clock : (port : ℤ) (s : S) → api.now s ≤ api.now (api.receive port s).1
  pub wait_moves : (d : ℕ) (s : S) → 0 < d → api.now s < api.now (api.wait d s)
  pub wait_keeps : (d : ℕ) (s : S) → pending (api.wait d s) ≤ pending s

-- An event, if there is one, is a frame of its channel.
abbrev Fits : Outcome → Type 0
Fits (err e) = Unit {0}
Fits (ok none) = Unit {0}
Fits (ok (some e)) = IsFrame e.channel e

decode-Fits :
    (m : XlLinMessage) (logical : ℕ) (kinds : ℕ → ChecksumType) (now : ℕ)
    → Fits (some_event (decode_vector_lin_event m logical kinds now))
unfolding decode_vector_lin_event
decode-Fits m logical kinds now = elim (Bool-cases (ltb 0x3F m.frame_id)) [
  | inl large ↦ rw large tt
  | inr small ↦ elim (Bool-cases (ltb 8 m.dlc)) [
    | inl long ↦ rw (small, long) tt
    | inr short ↦ elim (Bool-cases (has_crc_error m.flags)) [
      | inl broken ↦ rw (small, short, broken) tt
      | inr whole ↦
          rw (small, short, whole)
            (record {
              same_channel = refl;
              frame_id = ground arith;
              payload = ground (arith, length-take m.dlc m.data_bytes);
            })
    ]
  ]
]

event_of-Fits :
    (o : Option ℕ) (m : XlEvent) (kinds : ℕ → ChecksumType) (now : ℕ)
    → Fits (event_of o m kinds now)
event_of-Fits none m kinds now = tt
event_of-Fits (some logical) m kinds now =
    if_elim Fits (m.tag == 20) (decode-Fits m.message logical kinds now) tt

module _ {S : Type 0} (api : VectorApi S) (lib : IsDraining api) where
  abbrev pub Holds : Vector S → Type 0
  Holds v = HoldsFrames vector_event_queue_size v.event_chans

  -- Events to come, and time left.
  abbrev pub measure : ℕ → Vector S → ℕ
  measure deadline v = lib.pending v.library + (deadline - api.now v.library)

  abbrev pub Good : ℕ → Outcome → Vector S → Type 0
  Good channel r v = GivesFrame channel r × Holds v

  module _ (timeout : ℤ) (deadline channel : ℕ) where
    abbrev Moves : ℕ → Turn Outcome × Vector S → Type 0
    Moves before t = Progress Holds (Good channel) (measure deadline) before t

    pause-Moves :
        (before : ℕ) (v : Vector S)
        → Holds v
        → measure deadline v ≤ before
        → Moves before (pause api timeout deadline v)
    pause-Moves before v h most =
        elim (Bool-cases (is_nonpositive timeout || leb deadline (api.now v.library))) [
          | inl late ↦ rw (late, pause) (tt, h)
          | inr early ↦
              let left : api.now v.library < deadline = ground arith in
              let d = min (deadline - api.now v.library) vector_receive_poll_delay in
              let moved = lib.wait_moves d v.library (omega arith) in
              let kept = lib.wait_keeps d v.library in rw (early, pause) (h, omega arith)
        ]

    -- An event takes one from the library, if the driver looked at it.
    on_read-Moves :
        (r : Outcome) (before : ℕ) (v : Vector S)
        → Fits r
        → Holds v
        → measure deadline v ≤ before
        → ((e : LinEvent) → r ≡ ok (some e) → measure deadline v < before)
        → Moves before (on_read api timeout deadline channel (r, v))
    unfolding enqueue_event
    on_read-Moves (err e) before v fits h most less = (tt, h)
    on_read-Moves (ok none) before v fits h most less = pause-Moves before v h most
    on_read-Moves (ok (some e)) before v fits h most less =
        elim (Bool-cases (e.channel == channel)) [
          | inl same ↦
              rw (same, on_read) (subst (λ c. IsFrame c e) (==→eq e.channel channel same) fits, h)
          | inr other ↦
              rw (other, on_read)
                (
                  HoldsFrames-send vector_event_queue_size e.channel e v.event_chans fits h,
                  less e refl,
                )
        ]

    receive-Moves :
        (v : Vector S)
        → Holds v
        → Moves (measure deadline v) (on_read api timeout deadline channel (receive_one api v))
    receive-Moves v h =
        let (r, s') = api.receive v.port_handle v.library in
        let v' = record v { library = s' } in
        let kept = lib.receive_keeps v.port_handle v.library in
        let clock = lib.receive_clock v.port_handle v.library in
        let event =
          event_of (find r.1.1.channel_index v.logical_by_index) r.1.1 v.checksum_table
            (api.now s') in
        elim (Bool-cases (xl_status r.0 == 10 || r.1.0 == 0)) [
          | inl empty ↦ rw (empty, received) (pause-Moves (measure deadline v) v' h (omega arith))
          | inr other ↦ elim (Bool-cases (xl_status r.0 == 0)) [
            | inl good ↦
                let taken =
                  lib.receive_takes v.port_handle v.library (==→eq (xl_status r.0) 0 good)
                    (λ e. ground arith) in
                rw (other, good, received)
                  (on_read-Moves event (measure deadline v) v'
                    (event_of-Fits (find r.1.1.channel_index v.logical_by_index) r.1.1
                      v.checksum_table (api.now s'))
                    h (omega arith) (λ e same. omega arith))
            | inr failed ↦ rw (other, failed, received) (tt, h)
          ]
        ]

    read_turn-Moves :
        (v : Vector S)
        → Holds v
        → Moves (measure deadline v) (read_turn api timeout deadline channel v)
    unfolding read_turn read_one validate_open ◌>>=◌
    read_turn-Moves v h = go (event_queue channel v.event_chans) refl
      where
        go :
            (q : List LinEvent)
            → event_queue channel v.event_chans ≡ q
            → Moves (measure deadline v) (read_queued api timeout deadline channel q v)
        go [] same = elim (Bool-cases (is_closed_driver v)) [
          | inl gone ↦ rw (gone) (tt, h)
          | inr there ↦ rw (there) (receive-Moves v h)
        ]
        go (e ∷ rest) same =
            HoldsFrames-take vector_event_queue_size channel e rest v.event_chans same h

  -- From queues that hold frames of their channels, ReadEvent returns after at most one turn for each
  -- event that is to come and each nanosecond of the timeout, and one more, whatever the library puts
  -- into its events: an error, nothing, or a frame of the channel with an ID of six bits and at most eight
  -- bytes. The queues hold frames again.
  pub read_vector_event-Ends :
      (fuel : ℕ) (timeout : ℤ) (channel : ℕ) (v : Vector S)
      → HoldsFrames vector_event_queue_size v.event_chans
      → lib.pending v.library + pos_part timeout < fuel
      → Ends (Good channel) (read_event api fuel timeout channel v)
  unfolding read_event validate_channel validate_open known_channel ◌>>=◌
  read_vector_event-Ends fuel timeout channel v h enough = elim (Bool-cases (is_closed_driver v)) [
    | inl gone ↦ rw (gone, read_event) (tt, h)
    | inr there ↦ elim (Option-cases (lookup channel v.channel_info)) [
      | inl missing ↦ rw (there, missing, read_event) (tt, h)
      | inr (info, found) ↦
          let deadline = api.now v.library + pos_part timeout in
          rw (there, found, read_event)
            (repeat-Ends Holds (Good channel) (measure deadline)
              (read_turn api timeout deadline channel) (read_turn-Moves timeout deadline channel)
              fuel v h (omega arith))
    ]
  ]
