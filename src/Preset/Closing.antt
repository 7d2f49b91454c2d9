-- ===== src/Preset/Closing.antt =====
-- What a closed preset does.
use linbuskit.Base.{
  ℕ, ℤ, ◌≡◌, refl, ap, List, [], ◌∷◌, Option, none, some, true, false, Result, ok, err,
}
use linbuskit.Client.{Client, Answer, Script}
use linbuskit.Preset.{
  Outcome, Preset, PresetError, preset_closed, close, close_device, close_client_of, request,
  request_with_nad, function_request, master_read, write, lock_operation, by_client, locked,
}

-- A call of one of the methods.
pub data Call : Type 0 where
  call_close : Call
  call_request : List ℕ → ℤ → (ℕ → Script) → Call
  call_request_with_nad : ℕ → List ℕ → ℤ → (ℕ → Script) → Call
  call_function_request : List ℕ → ℤ → (ℕ → Script) → Call
  call_master_read : ℕ → Call
  call_write : ℕ → List ℕ → Call

-- The error of a result, and of a close the error that it returns.
abbrev pub error_of : {E A : Type 0} → Result E A → Option E
error_of (ok a) = none
error_of (err e) = some e

-- A call as a step: the error, the preset and the device afterwards.
unfoldable pub perform :
    {S : Type 0} → Call → Option (Preset S) → S → Option PresetError × Option (Preset S) × S
unfolding close request request_with_nad function_request master_read write
perform call_close o s = close o s
perform (call_request payload timeout scripts) o s =
    let r = request payload timeout scripts o in (error_of r.0, r.1, s)
perform (call_request_with_nad nad payload timeout scripts) o s =
    let r = request_with_nad nad payload timeout scripts o in (error_of r.0, r.1, s)
perform (call_function_request payload timeout scripts) o s =
    let r = function_request payload timeout scripts o in (error_of r.0, r.1, s)
perform (call_master_read frame_id) o s =
    let r = master_read frame_id o s in (error_of r.0, r.1, r.2)
perform (call_write frame_id data_bytes) o s =
    let r = write frame_id data_bytes o s in (error_of r.0, r.1, r.2)

-- The calls in turn, with the errors that they return.
unfoldable pub perform_all :
    {S : Type 0}
    → List Call
    → Option (Preset S)
    → S
    → List (Option PresetError) × Option (Preset S) × S
unfolding perform
perform_all [] o s = ([], o, s)
perform_all (c ∷ rest) o s =
    let (e, o', s') = perform c o s in
    let (es, last, s'') = perform_all rest o' s' in (e ∷ es, last, s'')

-- What a closed preset returns to a call.
abbrev pub refusal : Option PresetError → Call → Option PresetError
refusal first call_close = first
refusal first _ = some preset_closed

abbrev pub refusals : Option PresetError → List Call → List (Option PresetError)
refusals first [] = []
refusals first (c ∷ rest) = refusal first c ∷ refusals first rest

by_client-closed :
    {S : Type 0} (send : Client → Client × Option Answer) (p : Preset S)
    → p.is_closed ≡ true
    → by_client send (some p) ≡ (err preset_closed, some p)
unfolding by_client lock_operation
by_client-closed send p h = rw h

locked-closed :
    {S A : Type 0} (body : Preset S → S → Outcome S A) (p : Preset S) (s : S)
    → p.is_closed ≡ true
    → locked body (some p) s ≡ (err preset_closed, some p, s)
unfolding locked lock_operation
locked-closed body p s h = rw h

perform-closed :
    {S : Type 0} (c : Call) (p : Preset S) (s : S)
    → p.is_closed ≡ true
    → perform c (some p) s ≡ (refusal p.close_error c, some p, s)
unfolding perform close request request_with_nad function_request master_read write
perform-closed call_close p s h = simp h
perform-closed (call_request payload timeout scripts) p s h =
    ap (λ r. (error_of r.0, r.1, s)) (by_client-closed _ p h)
perform-closed (call_request_with_nad nad payload timeout scripts) p s h =
    ap (λ r. (error_of r.0, r.1, s)) (by_client-closed _ p h)
perform-closed (call_function_request payload timeout scripts) p s h =
    ap (λ r. (error_of r.0, r.1, s)) (by_client-closed _ p h)
perform-closed (call_master_read frame_id) p s h =
    ap (λ r. (error_of r.0, r.1, r.2)) (locked-closed _ p s h)
perform-closed (call_write frame_id data_bytes) p s h =
    ap (λ r. (error_of r.0, r.1, r.2)) (locked-closed _ p s h)

all_closed :
    {S : Type 0} (calls : List Call) (p : Preset S) (s : S)
    → p.is_closed ≡ true
    → perform_all calls (some p) s ≡ (refusals p.close_error calls, some p, s)
unfolding perform_all
all_closed [] p s h = refl
all_closed (c ∷ rest) p s h = rw (perform-closed c p s h, all_closed rest p s h)

-- After Close, whatever is called, and however often: the device is not touched again, a further
-- Close returns the result of the first one, and every other call returns ErrPresetClosed.
pub perform_all-close :
    {S : Type 0} (calls : List Call) (p : Preset S) (s : S)
    → p.is_closed ≡ false
    → let (first, o, s') = close (some p) s in
      perform_all calls o s' ≡ (refusals first calls, o, s')
unfolding close
perform_all-close calls p s h =
    let (e, s') = close_device p.lin_device s in
    let q = record p { is_closed = true; client = close_client_of p.client; close_error = e } in
    simp h (all_closed calls q s' refl)
