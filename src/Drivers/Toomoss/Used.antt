-- ===== src/Drivers/Toomoss/Used.antt =====
-- Every method of driver/toomoss.go but Close leaves an open device open, with an active instance and
-- a library that is ready.
use linbuskit.Base.{
  ℕ, ◌+◌, ◌≡◌, List, [], ◌∷◌, true, false, ◌||◌, leb, if_elim, Result, ok, err, ℤ, is_nonpositive,
  pos_part,
}
use linbuskit.Lin.{LinEvent, classic_checksum, rx, tx}
use linbuskit.Simulation.{event_queue}
use linbuskit.Drivers.Action.{modify}
use linbuskit.Drivers.Action.Preserves.{Preserves, Preserves-guard, preserves_rules}
use linbuskit.Drivers.Action.Repeat.{Turn, Leaves, repeat-Leaves}
use linbuskit.Drivers.Toomoss.Device.{
  LinExMsg, zero_msg, ToomossApi, ToomossError, Session, call, channel_error, elins_channel_error,
  configured_channel_error, validate_channel, validate_elins_channel, validate_configured_channel,
  enqueue_event,
}
use linbuskit.Drivers.Toomoss.Usb.{toomoss_ready}
use linbuskit.Drivers.Toomoss.Traffic.{
  Outcome, Sync, refused_sync, check_sync, synced, lin_master_sync, sync_one, write_message,
  master_write, master_read, queue_response, on_response, request_slave_response, lin_break,
  lin_ex_slave_get_data, queue_messages, pause, on_messages, read_queued, read_turn, read_checked,
  read_event, toomoss_event,
}

module _ {S : Type 0} where
  abbrev pub IsUp : Session S → Type 0
  IsUp s =
      (s.device.is_closed ≡ false) × (s.usb.instance_active ≡ true) × (toomoss_ready s.usb ≡ true)

  pub call-IsUp : {A : Type 0} (f : S → A × S) → Preserves IsUp (call f)
  unfolding toomoss_ready
  call-IsUp f = record { after = λ s h. h }

  validate_channel-IsUp : (channel : ℕ) → Preserves IsUp (validate_channel channel)
  unfolding validate_channel
  validate_channel-IsUp channel = record {
    after = λ s h. (Preserves-guard {P = IsUp} (channel_error channel s.device)).after s h;
  }

  pub validate_elins_channel-IsUp : (channel : ℕ) → Preserves IsUp (validate_elins_channel channel)
  unfolding validate_elins_channel
  validate_elins_channel-IsUp channel = record {
    after = λ s h. (Preserves-guard {P = IsUp} (elins_channel_error channel s.device)).after s h;
  }

  pub validate_configured_channel-IsUp :
      (channel : ℕ) → Preserves IsUp (validate_configured_channel channel)
  unfolding validate_configured_channel
  validate_configured_channel-IsUp channel = record {
    after =
        λ s h. (Preserves-guard {P = IsUp} (configured_channel_error channel s.device)).after s h;
  }

  enqueue_event-IsUp :
      (channel : ℕ) (e : LinEvent) (s : Session S) → IsUp s → IsUp (enqueue_event channel e s)
  unfolding enqueue_event
  enqueue_event-IsUp channel e s h = h

  refused_sync-IsUp :
      (out_msg : List LinExMsg) (r : Result ToomossError (Unit {0}) × Session S)
      (next : Unit {0} → Session S → Sync × Session S)
      → IsUp r.1
      → ((s : Session S) → IsUp s → IsUp (next tt s).1)
      → IsUp (refused_sync out_msg r next).1
  refused_sync-IsUp out_msg (ok a, s) next h f = f s h
  refused_sync-IsUp out_msg (err e, s) next h f = h

module _ {S : Type 0} (api : ToomossApi S) where
  check_sync-IsUp :
      (msg out_msg : List LinExMsg) (channel : ℕ)
      → Preserves IsUp (check_sync api msg out_msg channel)
  check_sync-IsUp msg out_msg channel =
      let checked : Preserves {S = Session S} IsUp (validate_channel channel) =
        validate_channel-IsUp channel in
      search preserves_rules depth 14

  pub lin_master_sync-IsUp :
      (msg out_msg : List LinExMsg) (channel : ℕ) (s : Session S)
      → IsUp s
      → IsUp (lin_master_sync api msg out_msg channel s).1
  unfolding lin_master_sync toomoss_ready
  lin_master_sync-IsUp msg out_msg channel s h =
      refused_sync-IsUp out_msg (check_sync api msg out_msg channel s) (λ a. synced api msg channel)
        ((check_sync-IsUp msg out_msg channel).after s h) (λ s h. h)

  sync_one-IsUp : (channel : ℕ) (m : LinExMsg) → Preserves IsUp (sync_one api m channel)
  sync_one-IsUp channel m = record {
    after = λ s h. lin_master_sync-IsUp (m ∷ []) (zero_msg ∷ []) channel s h;
  }

  -- An event of the moment goes into the queue.
  queued-IsUp :
      (channel : ℕ) (event : ℕ → LinEvent)
      → Preserves {E = ToomossError} IsUp
          (modify (λ (s : Session S). enqueue_event channel (event (api.now s.usb.library)) s))
  queued-IsUp channel event = record {
    after = λ s h. enqueue_event-IsUp channel (event (api.now s.usb.library)) s h;
  }

  pub write_message-IsUp :
      (e : LinEvent) (channel : ℕ) → Preserves IsUp (write_message api e channel)
  unfolding write_message
  write_message-IsUp e channel =
      let sync = sync_one-IsUp channel in
      let queued =
        queued-IsUp channel
          (λ now. record e { channel = channel; direction = tx; timestamp = now }) in
      search preserves_rules depth 14

  pub master_write-IsUp :
      (frame_id : ℕ) (payload : List ℕ) (channel : ℕ)
      → Preserves IsUp (master_write api frame_id payload channel)
  unfolding master_write
  master_write-IsUp frame_id payload channel =
      let sync = sync_one-IsUp channel in search preserves_rules depth 14

  pub master_read-IsUp : (frame_id channel : ℕ) → Preserves IsUp (master_read api frame_id channel)
  unfolding master_read
  master_read-IsUp frame_id channel =
      let sync = sync_one-IsUp channel in search preserves_rules depth 14

  queue_response-IsUp :
      (frame_id channel : ℕ) (payload : List ℕ)
      → Preserves IsUp (queue_response api frame_id channel payload)
  queue_response-IsUp frame_id channel payload =
      let queued = queued-IsUp channel (λ now. record {
        channel = channel;
        event_id = frame_id;
        event_payload = payload;
        checksum_type = classic_checksum;
        direction = rx;
        timestamp = now;
      }) in
      search preserves_rules depth 14

  on_response-IsUp :
      (frame_id channel : ℕ) (r : Sync) → Preserves IsUp (on_response api frame_id channel r)
  on_response-IsUp frame_id channel r =
      let queued = queue_response-IsUp frame_id channel in search preserves_rules depth 14

  pub request_slave_response-IsUp :
      (frame_id channel : ℕ) → Preserves IsUp (request_slave_response api frame_id channel)
  unfolding request_slave_response
  request_slave_response-IsUp frame_id channel =
      let sync = sync_one-IsUp channel in
      let queued = on_response-IsUp frame_id channel in search preserves_rules depth 14

  pub lin_break-IsUp : (channel : ℕ) → Preserves IsUp (lin_break api channel)
  unfolding lin_break
  lin_break-IsUp channel = let sync = sync_one-IsUp channel in search preserves_rules depth 14

  pub lin_ex_slave_get_data-IsUp :
      (channel : ℕ) → Preserves IsUp (lin_ex_slave_get_data api channel)
  unfolding lin_ex_slave_get_data
  lin_ex_slave_get_data-IsUp channel =
      let checked : Preserves {S = Session S} IsUp (validate_channel channel) =
        validate_channel-IsUp channel in
      let called = call-IsUp (api.slave_get_data channel) in search preserves_rules depth 14

  queue_messages-IsUp :
      (rest : List LinExMsg) (channel : ℕ) (s : Session S)
      → IsUp s
      → IsUp (queue_messages api rest channel s)
  unfolding queue_messages
  queue_messages-IsUp [] channel s h = h
  queue_messages-IsUp (m ∷ rest) channel s h =
      let e = toomoss_event m channel (api.now s.usb.library) in
      queue_messages-IsUp rest channel (enqueue_event channel e s)
        (enqueue_event-IsUp channel e s h)

  pause-IsUp :
      (timeout : ℤ) (deadline : ℕ) (s : Session S) → IsUp s → IsUp (pause api timeout deadline s).1
  unfolding toomoss_ready
  pause-IsUp timeout deadline s h =
      if_elim (λ (t : Turn Outcome × Session S). IsUp t.1)
        (is_nonpositive timeout || leb deadline (api.now s.usb.library)) h h

  on_messages-IsUp :
      (timeout : ℤ) (deadline channel : ℕ) (r : Result ToomossError (List LinExMsg) × Session S)
      → IsUp r.1
      → IsUp (on_messages api timeout deadline channel r).1
  on_messages-IsUp timeout deadline channel (err e, s) h = h
  on_messages-IsUp timeout deadline channel (ok [], s) h = pause-IsUp timeout deadline s h
  on_messages-IsUp timeout deadline channel (ok (m ∷ rest), s) h =
      queue_messages-IsUp rest channel s h

  read_queued-IsUp :
      (timeout : ℤ) (deadline channel : ℕ) (q : List LinEvent) (s : Session S)
      → IsUp s
      → IsUp (read_queued api timeout deadline channel q s).1
  read_queued-IsUp timeout deadline channel [] s h =
      on_messages-IsUp timeout deadline channel (lin_ex_slave_get_data api channel s)
        ((lin_ex_slave_get_data-IsUp channel).after s h)
  read_queued-IsUp timeout deadline channel (e ∷ rest) s h = h

  pub read_event-IsUp :
      (fuel : ℕ) (timeout : ℤ) (channel : ℕ) (s : Session S)
      → IsUp s
      → Leaves IsUp (read_event api fuel timeout channel s)
  unfolding read_event read_turn
  read_event-IsUp fuel timeout channel s h =
      go (validate_channel channel s) ((validate_channel-IsUp channel).after s h)
    where
      go :
          (r : Result ToomossError (Unit {0}) × Session S)
          → IsUp r.1
          → Leaves IsUp (read_checked api fuel timeout channel r)
      go (err e, s) h = h
      go (ok a, s) h =
          let deadline = api.now s.usb.library + pos_part timeout in
          repeat-Leaves IsUp (read_turn api timeout deadline channel)
            (λ s h.
              read_queued-IsUp timeout deadline channel (event_queue channel s.device.event_chans) s
                h)
            fuel s h
