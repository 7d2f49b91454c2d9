-- ===== src/Drivers/TsMaster/Queued.antt =====
-- What receiveLoop of driver/tsmaster.go leaves in the queues.
use linbuskit.Base.{
  ℕ, zero, suc, ◌%◌, ◌≤◌, refl, arith, List, [], ◌∷◌, Bool, true, false, not, ◌==◌, length, take,
  length-take, All, if_elim, min, pos_part, is_nonpositive, leb, ℤ,
}
use linbuskit.Lin.{is_tx}
use linbuskit.Drivers.Queues.{IsFrame, HoldsFrames, HoldsFrames-send}
use linbuskit.Drivers.TsMaster.{
  TsMasterLin, TsMaster, dlc_of, received, is_duplicate, is_same, direction_of, dispatch_received,
  dispatch_lin, event_capacity,
}
use linbuskit.Drivers.TsMaster.Methods.{
  TsMasterDevice, TsMasterApi, dispatch_all, on_receive, receive_channel, receive_channels,
  receive_round, unless_frames, push_error, rx_buffer_capacity,
}

abbrev pub Holds : TsMaster → Type 0
Holds t = HoldsFrames event_capacity t.queues

-- A message of the library has room for eight bytes.
abbrev pub HasEight : TsMasterLin → Type 0
HasEight m = length m.data_bytes ≤ 8

received-IsFrame :
    (m : TsMasterLin) (channel now : ℕ) → HasEight m → IsFrame channel (received m channel now)
received-IsFrame m channel now h = record {
  same_channel = refl;
  frame_id = omega arith;
  payload = omega (arith, length-take (dlc_of m) m.data_bytes);
}

dispatch_received-Holds :
    (m : TsMasterLin) (channel now : ℕ) (t : TsMaster)
    → HasEight m
    → Holds t
    → Holds (dispatch_received m channel now t)
unfolding is_duplicate
dispatch_received-Holds m channel now t eight h =
    if_elim Holds
      (is_same t.last_frame channel (m.identifier % 64) (direction_of m)
        (take (dlc_of m) m.data_bytes) now)
      h
      (HoldsFrames-send event_capacity channel (received m channel now) t.queues
        (received-IsFrame m channel now eight) h)

dispatch_lin-Holds :
    (m : TsMasterLin) (channel now : ℕ) (t : TsMaster)
    → HasEight m
    → Holds t
    → Holds (dispatch_lin m channel now t)
unfolding dispatch_lin
dispatch_lin-Holds m channel now t eight h = if_elim Holds (leb 0x3E (m.identifier % 64)) h (
    if_elim Holds (is_tx (direction_of m)) h
      (if_elim Holds (dlc_of m == 0) h (dispatch_received-Holds m channel now t eight h)))

dispatch_all-Holds :
    (ms : List TsMasterLin) (channel now : ℕ) (t : TsMaster)
    → All HasEight ms
    → Holds t
    → Holds (dispatch_all ms channel now t)
dispatch_all-Holds [] channel now t all h = h
dispatch_all-Holds (m ∷ rest) channel now t all h =
    dispatch_all-Holds rest channel now (dispatch_lin m channel now t) all.1
      (dispatch_lin-Holds m channel now t all.0 h)

All-take : (n : ℕ) (ms : List TsMasterLin) → All HasEight ms → All HasEight (take n ms)
All-take zero ms all = tt
All-take (suc n) [] all = tt
All-take (suc n) (m ∷ ms) all = (all.0, All-take n ms all.1)

module _ {S : Type 0} (api : TsMasterApi S)
    (gives_eight : (room channel : ℕ) (s : S)
      → All HasEight (api.receive_msgs room channel s).0.1.1) where
  on_receive-Holds :
      (channel : ℕ) (r : ℕ × (ℤ × List TsMasterLin)) (d : TsMasterDevice S)
      → All HasEight r.1.1
      → Holds d.frames
      → Holds (on_receive api channel r d).1.frames
  unfolding push_error
  on_receive-Holds channel r d all h =
      let n = min (pos_part r.1.0) rx_buffer_capacity in
      if_elim (λ (x : Bool × TsMasterDevice S). Holds x.1.frames) (not (r.0 == 0)) h
        (if_elim (λ (x : Bool × TsMasterDevice S). Holds x.1.frames) (is_nonpositive r.1.0) h
          (dispatch_all-Holds (take n r.1.1) (channel % 256) (api.now d.library) d.frames
            (All-take n r.1.1 all) h))

  receive_channels-Holds :
      (channels : List ℕ) (d : TsMasterDevice S)
      → Holds d.frames
      → Holds (receive_channels api channels d).1.frames
  unfolding receive_channels
  receive_channels-Holds [] d h = h
  receive_channels-Holds (c ∷ rest) d h =
      let (r, s') = api.receive_msgs rx_buffer_capacity c d.library in
      receive_channels-Holds rest (receive_channel api c d).1 (
        on_receive-Holds c r (record d { library = s' })
          (gives_eight rx_buffer_capacity c d.library) h)

  unless_frames-Holds :
      (r : Bool × TsMasterDevice S) → Holds r.1.frames → Holds (unless_frames api r).frames
  unless_frames-Holds (true, d) h = h
  unless_frames-Holds (false, d) h = h

  -- If the library gives messages of at most eight bytes, a round of receiveLoop keeps every queue a
  -- queue of frames of its channel, with IDs of six bits and at most eight bytes, and of no more than
  -- 128 of them, whatever else the messages say.
  pub receive_round-HoldsFrames :
      (d : TsMasterDevice S)
      → HoldsFrames event_capacity d.frames.queues
      → HoldsFrames event_capacity (receive_round api d).frames.queues
  unfolding receive_round
  receive_round-HoldsFrames d h =
      unless_frames-Holds (receive_channels api d.channels d)
        (receive_channels-Holds d.channels d h)
