-- ===== src/Drivers/TsMaster/Dispatch.antt =====
-- What dispatchLIN puts into the queues, and that a frame seen twice is queued once.
use linbuskit.Base.{
  ℕ, ◌+◌, ◌%◌, ◌≤◌, ◌<◌, ◌≡◌, refl, arith, List, [], ◌∷◌, some, Bool, true, false, leb, ◌==◌,
  if◌then◌else◌, length, take, copy, ==_refl, lt→ltb, length-take, Bool-cases, inl, inr, leb→lt,
  if_elim, ◌⊎◌,
}
use linbuskit.Lin.{LinEvent, Direction, rx, tx, is_tx}
use linbuskit.Transport.State.{send_or_drop}
use linbuskit.Simulation.{EventQueues, event_queue, set_queue}
use linbuskit.Drivers.TsMaster.{
  TsMasterLin, LastFrame, TsMaster, dlc_of, no_data, same_bytes, same_direction, window, is_same,
  is_duplicate, direction_of, received, dispatch_received, dispatch_lin, event_capacity,
}

same_bytes-copy :
    (payload : List ℕ) (data_bytes : List ℕ)
    → length payload ≤ length data_bytes
    → same_bytes payload (copy data_bytes payload) ≡ true
same_bytes-copy [] data_bytes h = refl
same_bytes-copy (b ∷ payload) [] h = absurd (omega arith)
same_bytes-copy (b ∷ payload) (d ∷ data_bytes) h =
    ground (arith, same_bytes-copy payload data_bytes (omega arith))

same_direction_refl : (d : Direction) → same_direction d d ≡ true
same_direction_refl rx = refl
same_direction_refl tx = refl

length-payload :
    (m : TsMasterLin) → length m.data_bytes ≤ 8 → length (take (dlc_of m) m.data_bytes) ≤ 8
length-payload m h = omega (arith, length-take (dlc_of m) m.data_bytes)

abbrev pub recorded : ℕ → ℕ → Direction → List ℕ → ℕ → LastFrame
recorded channel id d payload now = record {
  channel = channel;
  id = id;
  direction = d;
  count = length payload;
  data_bytes = copy no_data payload;
  time = now;
}

is_same-recorded :
    (channel id : ℕ) (d : Direction) (payload : List ℕ) (now later : ℕ)
    → length payload ≤ 8
    → later < now + window
    → is_same (some (recorded channel id d payload now)) channel id d payload later ≡ true
is_same-recorded channel id d payload now later hl hw = rw (
  ==_refl channel,
  ==_refl id,
  same_direction_refl d,
  ==_refl (length payload),
  lt→ltb later (now + window) hw,
  same_bytes-copy payload no_data hl,
)

module _ (m : TsMasterLin) (channel : ℕ) where
  dispatch_received-last_frame :
      (now : ℕ) (t : TsMaster)
      → (dispatch_received m channel now t).last_frame
        ≡ some (
            recorded channel
              (m.identifier % 64)
              (direction_of m)
              (take (dlc_of m) m.data_bytes)
              now)
  unfolding is_duplicate
  dispatch_received-last_frame now t =
      if_elim
        (λ (x : TsMaster).
          x.last_frame
          ≡ some (
              recorded channel (m.identifier % 64) (direction_of m) (take (dlc_of m) m.data_bytes)
                now))
        (is_same t.last_frame channel (m.identifier % 64) (direction_of m)
          (take (dlc_of m) m.data_bytes) now)
        refl refl

  dispatch_received-same :
      (later : ℕ) (t : TsMaster)
      → is_same t.last_frame channel
          (m.identifier % 64)
          (direction_of m)
          (take (dlc_of m) m.data_bytes)
          later
        ≡ true
      → (dispatch_received m channel later t).queues ≡ t.queues
  unfolding is_duplicate
  dispatch_received-same later t h = rw h

  dispatch_received-twice :
      (now later : ℕ) (t : TsMaster)
      → length m.data_bytes ≤ 8
      → later < now + window
      → (dispatch_received m channel later (dispatch_received m channel now t)).queues
        ≡ (dispatch_received m channel now t).queues
  dispatch_received-twice now later t h w =
      dispatch_received-same later (dispatch_received m channel now t) (
        rw (dispatch_received-last_frame now t) (
          is_same-recorded channel (m.identifier % 64) (direction_of m)
            (take (dlc_of m) m.data_bytes) now later (length-payload m h) w))

  -- A frame that the library reports a second time within eight milliseconds, with no other between,
  -- is not queued a second time.
  dispatch_lin_twice :
      (now later : ℕ) (t : TsMaster)
      → length m.data_bytes ≤ 8
      → later < now + window
      → (dispatch_lin m channel later (dispatch_lin m channel now t)).queues
        ≡ (dispatch_lin m channel now t).queues
  unfolding dispatch_lin
  dispatch_lin_twice now later t h w =
      guarded (leb 0x3E (m.identifier % 64)) (is_tx (direction_of m)) (dlc_of m == 0)
    where
      guarded :
          (a b c : Bool)
          → (if a
              then (if a
                  then t
                  else if b
                  then t
                  else if c
                  then t
                  else dispatch_received m channel now t)
              else if b
              then (if a
                  then t
                  else if b
                  then t
                  else if c
                  then t
                  else dispatch_received m channel now t)
              else if c
              then (if a
                  then t
                  else if b
                  then t
                  else if c
                  then t
                  else dispatch_received m channel now t)
              else dispatch_received m channel later (
                  if a
                  then t
                  else if b
                  then t
                  else if c
                  then t
                  else dispatch_received m channel now t)).queues
            ≡ (if a
                then t
                else if b
                then t
                else if c
                then t
                else dispatch_received m channel now t).queues
      guarded true b c = refl
      guarded false true c = refl
      guarded false false true = refl
      guarded false false false = dispatch_received-twice now later t h w

-- An event that a reader of the channel may get: an answer with data, from an ID that is in use.
pub record IsAnswer (m : TsMasterLin) (channel : ℕ) (e : LinEvent) : Type 0 where
  pub same_channel : e.channel ≡ channel
  pub frame_id : e.event_id < 0x3E
  pub direction : e.direction ≡ rx
  pub has_data : 0 < length e.event_payload
  pub fits : length e.event_payload ≤ 8
  pub payload : e.event_payload ≡ take (dlc_of m) m.data_bytes

is_tx-rx : (d : Direction) → is_tx d ≡ false → d ≡ rx
is_tx-rx rx h = refl
is_tx-rx tx h = cc

is_positive : (n : ℕ) → (n == 0) ≡ false → 0 < n
is_positive n h = ground arith

received-IsAnswer :
    (m : TsMasterLin) (channel now : ℕ)
    → length m.data_bytes ≤ 8
    → leb 0x3E (m.identifier % 64) ≡ false
    → is_tx (direction_of m) ≡ false
    → (dlc_of m == 0) ≡ false
    → IsAnswer m channel (received m channel now)
received-IsAnswer m channel now h low answer full =
    let taken = length-take (dlc_of m) m.data_bytes in
    let some_data = is_positive (dlc_of m) full in
    record {
      same_channel = refl;
      frame_id = leb→lt 0x3E (m.identifier % 64) low;
      direction = is_tx-rx (direction_of m) answer;
      has_data = omega arith;
      fits = omega arith;
      payload = refl;
    }

-- What a call does to the queues of the events.
abbrev pub Queued : TsMasterLin → ℕ → EventQueues → EventQueues → Type 0
Queued m channel before after =
    (e : LinEvent) × IsAnswer m channel e
    × (after
        ≡ set_queue channel (send_or_drop event_capacity (event_queue channel before) e) before)

dispatch_received-Queued :
    (m : TsMasterLin) (channel now : ℕ) (t : TsMaster)
    → IsAnswer m channel (received m channel now)
    → ((dispatch_received m channel now t).queues ≡ t.queues)
      ⊎ Queued m channel t.queues (dispatch_received m channel now t).queues
unfolding is_duplicate
dispatch_received-Queued m channel now t answer =
    if_elim (λ (x : TsMaster). (x.queues ≡ t.queues) ⊎ Queued m channel t.queues x.queues)
      (is_same t.last_frame channel (m.identifier % 64) (direction_of m)
        (take (dlc_of m) m.data_bytes) now)
      (inl refl) (inr (received m channel now, answer, refl))

-- A frame that the library reports either leaves the queues alone, or puts one event at the end of
-- its channel's queue, if there is room: an answer with the reported bytes, at least one and at most
-- eight, from an ID that is not reserved.
pub dispatch_lin-Queued :
    (m : TsMasterLin) (channel now : ℕ) (t : TsMaster)
    → length m.data_bytes ≤ 8
    → ((dispatch_lin m channel now t).queues ≡ t.queues)
      ⊎ Queued m channel t.queues (dispatch_lin m channel now t).queues
unfolding dispatch_lin
dispatch_lin-Queued m channel now t h = elim (Bool-cases (leb 0x3E (m.identifier % 64))) [
  | inl reserved ↦ rw (reserved, dispatch_lin) (inl refl)
  | inr low ↦ elim (Bool-cases (is_tx (direction_of m))) [
    | inl sent ↦ rw (low, sent, dispatch_lin) (inl refl)
    | inr answer ↦ elim (Bool-cases (dlc_of m == 0)) [
      | inl empty ↦ rw (low, answer, empty, dispatch_lin) (inl refl)
      | inr full ↦
          rw (low, answer, full, dispatch_lin)
            (dispatch_received-Queued m channel now t
              (received-IsAnswer m channel now h low answer full))
    ]
  ]
]
