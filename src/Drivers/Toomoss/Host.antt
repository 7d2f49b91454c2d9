-- ===== src/Drivers/Toomoss/Host.antt =====
-- Any use of driver/toomoss.go in a process: NewToomoss, the methods of its devices, UsbScan and
-- UsbOpen, in any order. There is never more than one device that is not closed.
use linbuskit.Base.{
  ℕ, ◌+◌, ◌≡◌, refl, sym, subst, ap, ◌∙◌, arith, List, [], ◌∷◌, ◌++◌, Bool, true, false,
  if◌then◌else◌, Bool-cases, inl, inr, ok, err,
}
use linbuskit.Drivers.Toomoss.Device.{ToomossApi, ToomossError, Usb, Toomoss, Session}
use linbuskit.Drivers.Toomoss.Usb.{is_scanned, is_opened}
use linbuskit.Drivers.Toomoss.Lifetime.{new_toomoss, close, close_first, close-first}
use linbuskit.Drivers.Toomoss.Kept.{Flag, Ready}
use linbuskit.Drivers.Toomoss.Created.{
  Created, is_scanned-Flag, is_opened-Flag, is_scanned-Ready, is_opened-Ready, new_toomoss-Created,
}
use linbuskit.Drivers.Toomoss.Session.Upheld.{perform-IsUp}
use linbuskit.Drivers.Toomoss.Calls.{Call, call_close, is_close, perform, perform-closed}

-- The globals, and the devices that NewToomoss has returned, the last first.
pub record Host (S : Type 0) : Type 0 where
  pub usb : Usb S
  pub devices : List Toomoss

abbrev pub open_devices : List Toomoss → ℕ
open_devices [] = 0
open_devices (d ∷ rest) = (if d.is_closed then 0 else 1) + open_devices rest

open_devices-append :
    (before : List Toomoss) (d : Toomoss) (after : List Toomoss)
    → open_devices (before ++ d ∷ after)
      ≡ open_devices before + ((if d.is_closed then 0 else 1) + open_devices after)
open_devices-append [] d after = omega arith
open_devices-append (b ∷ before) d after = ground (arith, open_devices-append before d after)

open_devices-open :
    (before : List Toomoss) (d : Toomoss) (after : List Toomoss)
    → d.is_closed ≡ false
    → open_devices (before ++ d ∷ after) ≡ open_devices before + (1 + open_devices after)
open_devices-open before d after up = open_devices-append before d after ∙ rw up refl

open_devices-closed :
    (before : List Toomoss) (d : Toomoss) (after : List Toomoss)
    → d.is_closed ≡ true
    → open_devices (before ++ d ∷ after) ≡ open_devices before + (0 + open_devices after)
open_devices-closed before d after gone = open_devices-append before d after ∙ rw gone refl

only_one :
    (active : Bool) (b a n : ℕ)
    → n ≡ b + (1 + a)
    → n ≡ (if active then 1 else 0)
    → (active ≡ true) × (b ≡ 0) × (a ≡ 0)
only_one true b a n sum count = (refl, omega arith, omega arith)
only_one false b a n sum count = absurd (omega arith)

module _ {S : Type 0} (api : ToomossApi S) where
  -- One of the devices, with the globals, has become `s`.
  abbrev pub host_of : List Toomoss → Session S → List Toomoss → Host S
  host_of before s after = record { usb = s.usb; devices = before ++ s.device ∷ after }

  pub data Step : Host S → Host S → Type 0 where
    created :
        (channels : List ℕ) (mode : ℕ) (h : Host S) (d : Toomoss) (u : Usb S)
        → new_toomoss api channels mode h.usb ≡ (ok d, u)
        → Step h (record { usb = u; devices = d ∷ h.devices })
    refused :
        (channels : List ℕ) (mode : ℕ) (h : Host S) (e : ToomossError) (u : Usb S)
        → new_toomoss api channels mode h.usb ≡ (err e, u)
        → Step h (record h { usb = u })
    used :
        (c : Call) (before : List Toomoss) (s : Session S) (after : List Toomoss)
        → is_close c ≡ false
        → Step (host_of before s after) (host_of before (perform api c s).1 after)
    closed :
        (before : List Toomoss) (s : Session S) (after : List Toomoss)
        → Step (host_of before s after) (host_of before (close api s).1 after)
    scanned : (h : Host S) → Step h (record h { usb = (is_scanned api h.usb).1 })
    opened : (h : Host S) → Step h (record h { usb = (is_opened api h.usb).1 })

  pub data Reach (h : Host S) : Host S → Type 0 where
    here : Reach h h
    next : {g k : Host S} → Reach h g → Step g k → Reach h k

  -- As many devices are open as instances are active, none or one, and while one is active the
  -- library is there with the procedures that the driver needs.
  pub record IsSingle (h : Host S) : Type 0 where
    pub sole_device : open_devices h.devices ≡ (if h.usb.instance_active then 1 else 0)
    pub ready : h.usb.instance_active ≡ true → Ready api h.usb

  -- Another session, with the same globals and as closed or open as before.
  IsSingle-same :
      (before : List Toomoss) (s s' : Session S) (after : List Toomoss)
      → s' ≡ s
      → IsSingle (host_of before s after)
      → IsSingle (host_of before s' after)
  IsSingle-same before s s' after same h = rw same h

  -- An open device among those of the host is the only one.
  open-alone :
      (before : List Toomoss) (s : Session S) (after : List Toomoss)
      → s.device.is_closed ≡ false
      → IsSingle (host_of before s after)
      → (s.usb.instance_active ≡ true) × (open_devices before ≡ 0) × (open_devices after ≡ 0)
  open-alone before s after up h =
      only_one s.usb.instance_active (open_devices before) (open_devices after) _
        (open_devices-open before s.device after up) h.sole_device

  used-IsSingle :
      (c : Call) (before : List Toomoss) (s : Session S) (after : List Toomoss)
      → is_close c ≡ false
      → IsSingle (host_of before s after)
      → IsSingle (host_of before (perform api c s).1 after)
  used-IsSingle c before s after other h = elim (Bool-cases s.device.is_closed) [
    | inl gone ↦
        IsSingle-same before s (perform api c s).1 after
          (ap (λ r. r.1) (perform-closed api c s gone)) h
    | inr there ↦
        let (active, none_before, none_after) = open-alone before s after there h in
        let (up, active', ready) = perform-IsUp api c s other (there, active, h.ready active) in
        let s' = (perform api c s).1 in
        record {
          sole_device =
              open_devices-open before s'.device after up
              ∙ rw (active', none_before, none_after) refl;
          ready = λ a. ready;
        }
  ]

  closed-IsSingle :
      (before : List Toomoss) (s : Session S) (after : List Toomoss)
      → IsSingle (host_of before s after)
      → IsSingle (host_of before (close api s).1 after)
  unfolding perform
  closed-IsSingle before s after h = elim (Bool-cases s.device.is_closed) [
    | inl gone ↦
        IsSingle-same before s (close api s).1 after
          (ap (λ r. r.1) (perform-closed api call_close s gone)) h
    | inr there ↦
        let (active, none_before, none_after) = open-alone before s after there h in
        let s' = (close_first api s).1 in
        rw (close-first api s there) (record {
          sole_device =
              open_devices-closed before s'.device after refl ∙ rw (none_before, none_after) refl;
          ready = λ a. cc;
        })
  ]

  looked-IsSingle :
      (look : Usb S → Bool × Usb S)
      → ((b : Bool) (u : Usb S) → Flag api b u → Flag api b (look u).1)
      → ((u : Usb S) → Ready api u → Ready api (look u).1)
      → (h : Host S) → IsSingle h
      → IsSingle (record h { usb = (look h.usb).1 })
  looked-IsSingle look flag ready h s =
      let same = flag h.usb.instance_active h.usb refl in
      record {
        sole_device = rw same s.sole_device;
        ready = λ a. ready h.usb (s.ready (sym same ∙ a));
      }

  Step-IsSingle : {h k : Host S} → Step h k → IsSingle h → IsSingle k
  Step-IsSingle (created channels mode h d u made) s =
      let (idle, active, ready, up) =
        subst (Created api h.usb) made (new_toomoss-Created api channels mode h.usb) in
      record { sole_device = rw (up, active, s.sole_device, idle) refl; ready = λ a. ready }
  Step-IsSingle (refused channels mode h e u failed) s =
      let (same, ready) =
        subst (Created api h.usb) failed (new_toomoss-Created api channels mode h.usb) in
      record {
        sole_device = rw same s.sole_device;
        ready = λ a. ready (sym same ∙ a) (s.ready (sym same ∙ a));
      }
  Step-IsSingle (used c before s after other) h = used-IsSingle c before s after other h
  Step-IsSingle (closed before s after) h = closed-IsSingle before s after h
  Step-IsSingle (scanned h) s =
      looked-IsSingle (is_scanned api) (is_scanned-Flag api) (is_scanned-Ready api) h s
  Step-IsSingle (opened h) s =
      looked-IsSingle (is_opened api) (is_opened-Flag api) (is_opened-Ready api) h s

  Reach-IsSingle : {h k : Host S} → IsSingle h → Reach h k → IsSingle k
  Reach-IsSingle s here = s
  Reach-IsSingle s (next r step) = Step-IsSingle step (Reach-IsSingle s r)

  -- In a process that starts without a device, whatever is called, and in whatever order: never is
  -- more than one device open, an instance is active exactly while one is, and then the library is
  -- there with the procedures that the driver needs.
  pub reached-IsSingle :
      (u : Usb S) {k : Host S}
      → u.instance_active ≡ false
      → Reach (record { usb = u; devices = [] }) k
      → IsSingle k
  reached-IsSingle u idle r =
      Reach-IsSingle (record { sole_device = rw idle refl; ready = λ a. cc }) r
