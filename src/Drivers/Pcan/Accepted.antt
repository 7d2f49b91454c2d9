-- ===== src/Drivers/Pcan/Accepted.antt =====
-- Which frames the drivers' checks let through.
use linbuskit.Base.{
  ℕ, ◌<◌, ◌≡◌, arith, none, some, Bool, true, false, length, inl, inr, ◌⊎◌, ◌&&◌, ◌==◌, not,
  Bool-cases, ==→eq,
}
use linbuskit.Lin.{LinEvent, classic_checksum}
use linbuskit.Preset.Written.{IsWritable}
use linbuskit.Drivers.Pcan.{validate_pcan_event, validate_vector_event, is_diagnostic, is_classic}

diagnostic_cases : (id : ℕ) → is_diagnostic id ≡ true → (id ≡ 0x3C) ⊎ (id ≡ 0x3D)
diagnostic_cases id h = elim (Bool-cases (id == 0x3C)) [
  | inl first ↦ inl (==→eq id 0x3C first)
  | inr other ↦ inr (==→eq id 0x3D (ground arith))
]

unfoldable wrong_checksum : LinEvent → Bool
wrong_checksum e = is_diagnostic e.event_id && not (is_classic e.checksum_type)

has_classic : (e : LinEvent) → e.checksum_type ≡ classic_checksum → wrong_checksum e ≡ false
unfolding wrong_checksum
has_classic e c = elim (Bool-cases (is_diagnostic e.event_id)) [
  | inl diagnostic ↦ rw (diagnostic, c)
  | inr ordinary ↦ rw ordinary
]

checksum_fits : (channel : ℕ) (e : LinEvent) → IsWritable channel e → wrong_checksum e ≡ false
unfolding wrong_checksum
checksum_fits channel e w = elim (Bool-cases (is_diagnostic e.event_id)) [
  | inl diagnostic ↦ has_classic e (w.diagnostic (diagnostic_cases e.event_id diagnostic))
  | inr ordinary ↦ rw ordinary
]

-- A frame that may be written and has data passes the checks of the PCAN and of the Vector driver.
writable_accepted :
    (channel : ℕ) (e : LinEvent)
    → IsWritable channel e
    → 0 < length e.event_payload
    → (validate_pcan_event (some e) ≡ none) × (validate_vector_event (some e) ≡ none)
unfolding validate_pcan_event validate_vector_event wrong_checksum
writable_accepted channel e w h =
    let id = w.frame_id in
    let long = w.payload in let checksum = checksum_fits channel e w in (ground arith, ground arith)
