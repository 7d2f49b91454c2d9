-- ===== src/Drivers/MasterRead.antt =====
-- readMasterResponse of driver/common.go: one header, then reads until the slave's frame comes or the
-- time is up. The clock, the request and the read are those of a device `S`; each turn of the loop
-- is one unit of fuel.
pub mod Ends
pub mod Payload
use linbuskit.Base.{
  ℕ, zero, suc, ◌+◌, ◌-◌, ◌≤◌, ◌<◌, ◌≡◌, refl, sym, ◌∙◌, arith, List, Option, none, some, Bool,
  true, false, ◌&&◌, ltb, leb, ◌==◌, if◌then◌else◌, Result, ok, err, is_some, Bool-cases, inl, inr,
  ltb→le, leb→lt, ◌⊎◌,
}
use linbuskit.Lin.{LinEvent, DriverError, is_rx}

pub data ReadError : Type 0 where
  invalid_frame : ℕ → ReadError
  no_slave_response : ReadError
  device_error : DriverError → ReadError

-- What the loop uses of a device.
pub record Reader (S : Type 0) : Type 0 where
  pub request : ℕ → ℕ → S → Option DriverError × S
  pub read : ℕ → ℕ → S → Result DriverError (Option LinEvent) × S
  pub now : S → ℕ

abbrev pub is_response : ℕ → ℕ → LinEvent → Bool
is_response frame_id channel e = e.channel == channel && e.event_id == frame_id && is_rx e.direction

-- What a read comes to: another turn, or the end.
pub data Turn : Type 0 where
  again : Turn
  over : Result ReadError (List ℕ) → Turn

abbrev pub turn_of : ℕ → ℕ → Result DriverError (Option LinEvent) → Turn
turn_of frame_id channel (err e) = over (err (device_error e))
turn_of frame_id channel (ok none) = again
turn_of frame_id channel (ok (some e)) =
    if is_response frame_id channel e then over (ok e.event_payload) else again

abbrev pub by_turn :
    {S : Type 0}
    → Turn
    → Option (Result ReadError (List ℕ) × S)
    → S
    → Option (Result ReadError (List ℕ) × S)
by_turn again rest s = rest
by_turn (over result) rest s = some (result, s)

unfoldable pub read_until :
    {S : Type 0} → Reader S → ℕ → ℕ → ℕ → ℕ → S → Option (Result ReadError (List ℕ) × S)
read_until r frame_id channel deadline zero s = none
read_until r frame_id channel deadline (suc fuel) s = elim (leb deadline (r.now s)) [
  | true ↦ some (err no_slave_response, s)
  | false ↦
      let (e, s') = r.read (deadline - r.now s) channel s in
      let rest = read_until r frame_id channel deadline fuel s' in
      by_turn (turn_of frame_id channel e) rest s'
]

abbrev pub after_request :
    {S : Type 0}
    → Reader S
    → ℕ
    → ℕ
    → ℕ
    → ℕ
    → Option DriverError × S
    → Option (Result ReadError (List ℕ) × S)
after_request r fuel frame_id channel timeout (some e, s) = some (err (device_error e), s)
after_request r fuel frame_id channel timeout (none, s) =
    read_until r frame_id channel (r.now s + timeout) fuel s

unfoldable pub read_master_response :
    {S : Type 0} → Reader S → ℕ → ℕ → ℕ → ℕ → S → Option (Result ReadError (List ℕ) × S)
unfolding read_until
read_master_response r fuel frame_id channel timeout s = elim (ltb 0x3F frame_id) [
  | true ↦ some (err (invalid_frame frame_id), s)
  | false ↦ after_request r fuel frame_id channel timeout (r.request frame_id channel s)
]

pub read_until-late :
    {S : Type 0} (r : Reader S) (frame_id channel deadline fuel : ℕ) (s : S)
    → leb deadline (r.now s) ≡ true
    → read_until r frame_id channel deadline (suc fuel) s ≡ some (err no_slave_response, s)
unfolding read_until
read_until-late r frame_id channel deadline fuel s late = rw (late, read_until)

pub read_until-early :
    {S : Type 0} (r : Reader S) (frame_id channel deadline fuel : ℕ) (s : S)
    → leb deadline (r.now s) ≡ false
    → let (e, s') = r.read (deadline - r.now s) channel s in
      read_until r frame_id channel deadline (suc fuel) s
      ≡ by_turn (turn_of frame_id channel e) (read_until r frame_id channel deadline fuel s') s'
unfolding read_until
read_until-early r frame_id channel deadline fuel s early = rw (early, read_until)
