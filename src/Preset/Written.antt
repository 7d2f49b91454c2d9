-- ===== src/Preset/Written.antt =====
-- What `Write` hands to the device.
use linbuskit.Base.{
  ℕ, ◌≤◌, ◌≡◌, ◌≢◌, refl, arith, List, some, false, ltb, ltb→lt, ◌<◌, ltb→le, Bool-cases, inl, inr,
  ◌⊎◌, length, err,
}
use linbuskit.Lin.{LinEvent, classic_checksum, enhanced_checksum, tx}
use linbuskit.Preset.{
  Device, Preset, invalid_frame_id, payload_too_long, Outcome, frame_for, write_result,
  write_checked, locked, lock_operation, write,
}

-- A frame that may go to the bus on a channel.
pub record IsWritable (channel : ℕ) (e : LinEvent) : Type 0 where
  pub same_channel : e.channel ≡ channel
  pub frame_id : e.event_id ≤ 0x3F
  pub payload : length e.event_payload ≤ 8
  pub direction : e.direction ≡ tx
  pub diagnostic : (e.event_id ≡ 0x3C) ⊎ (e.event_id ≡ 0x3D) → e.checksum_type ≡ classic_checksum
  pub ordinary : e.event_id ≢ 0x3C → e.event_id ≢ 0x3D → e.checksum_type ≡ enhanced_checksum

frame_for-IsWritable :
    (channel frame_id : ℕ) (data_bytes : List ℕ)
    → frame_id ≤ 0x3F
    → length data_bytes ≤ 8
    → IsWritable channel (frame_for channel frame_id data_bytes)
frame_for-IsWritable channel frame_id data_bytes hi hl = record {
  same_channel = refl;
  frame_id = hi;
  payload = hl;
  direction = refl;
  diagnostic = λ d. ground arith;
  ordinary = λ a b. ground arith;
}

-- What a raw write on an open preset with a device comes to: the frame goes to the device, or it is
-- refused for its ID, or for its length, and the device stays as it was.
pub data WriteRow {S : Type 0} (device : Device S) (frame_id : ℕ) (data_bytes : List ℕ)
    (p : Preset S) (s : S) : Outcome S Unit → Type 0 where
  sent :
      (e : LinEvent)
      → IsWritable p.channel e
      → e.event_id ≡ frame_id
      → e.event_payload ≡ data_bytes
      → WriteRow device frame_id data_bytes p s
          (write_result p (device.world.driver.write_message e p.channel s))
  refused_id :
      0x3F < frame_id
      → WriteRow device frame_id data_bytes p s (err (invalid_frame_id frame_id), some p, s)
  refused_length :
      frame_id ≤ 0x3F
      → 8 < length data_bytes
      → WriteRow device frame_id data_bytes p s
          (err (payload_too_long (length data_bytes)), some p, s)

write_checked-WriteRow :
    {S : Type 0} (frame_id : ℕ) (data_bytes : List ℕ) (p : Preset S) (device : Device S) (s : S)
    → p.lin_device ≡ some device
    → WriteRow device frame_id data_bytes p s (write_checked frame_id data_bytes p s)
write_checked-WriteRow frame_id data_bytes p device s d = elim (Bool-cases (ltb 0x3F frame_id)) [
  | inl over ↦ simp (d, over, write_checked) (refused_id (ltb→lt 0x3F frame_id over))
  | inr fits ↦ elim (Bool-cases (ltb 8 (length data_bytes))) [
    | inl long ↦
        simp (d, fits, long, write_checked)
          (refused_length (ltb→le 0x3F frame_id fits) (ltb→lt 8 _ long))
    | inr short ↦
        simp (d, fits, short, write_checked)
          (sent (frame_for p.channel frame_id data_bytes)
            (frame_for-IsWritable _ frame_id data_bytes (ltb→le 0x3F frame_id fits)
              (ltb→le 8 _ short))
            refl refl)
  ]
]

-- A raw write on an open preset hands the device exactly one frame with the ID and the bytes given,
-- which keeps the bounds of a frame and has the checksum of its ID, and returns what the device
-- does; or it refuses an ID over 0x3F, or else more than eight bytes, and leaves the device alone.
pub write-WriteRow :
    {S : Type 0} (frame_id : ℕ) (data_bytes : List ℕ) (p : Preset S) (device : Device S) (s : S)
    → p.is_closed ≡ false
    → p.lin_device ≡ some device
    → WriteRow device frame_id data_bytes p s (write frame_id data_bytes (some p) s)
unfolding write locked lock_operation
write-WriteRow frame_id data_bytes p device s h d =
    rw h (write_checked-WriteRow frame_id data_bytes _ device s d)
