-- ===== src/Drivers/Toomoss/Session/Upheld.antt =====
-- The methods for ELINS of driver/toomoss.go leave an open device open, with an active instance and a
-- library that is ready; and so does every call but Close.
use linbuskit.Base.{ℕ, ◌≡◌, List, [], ◌∷◌, Option, none, some, Bool, true, false}
use linbuskit.Drivers.Action.Preserves.{Preserves, preserves_rules}
use linbuskit.Drivers.Action.Repeat.{Leaves}
use linbuskit.Drivers.Elins.{ElinsConfig}
use linbuskit.Drivers.Elins.Filters.{ElinsMsgFilter}
use linbuskit.Drivers.Toomoss.Device.{
  ToomossApi, ToomossError, Session, Method, validate_elins_channel, validate_configured_channel,
}
use linbuskit.Drivers.Toomoss.Usb.{toomoss_ready}
use linbuskit.Drivers.Toomoss.Lifetime.{stop_if}
use linbuskit.Drivers.Toomoss.Traffic.{Outcome, read_event, schedule_slave_response}
use linbuskit.Drivers.Toomoss.Session.{
  rollback, set_rev_time, init_channel, unless_failed, init_each, configure_elins,
  lin_ex_ctrl_power_out, elins_slave_read_into, elins_slave_read, elins_slave_read_filter,
  elins_slave_read_max_frames,
}
use linbuskit.Drivers.Toomoss.Calls.{
  Call, perform, is_close, read_errors, call_read, call_sync, call_write, call_schedule,
  call_master_write, call_master_read, call_request, call_power_out, call_elins_read_into,
  call_break, call_get_data, call_elins_read, call_elins_read_filter, call_configure, call_close,
}
use linbuskit.Drivers.Toomoss.Used.{
  IsUp, call-IsUp, validate_elins_channel-IsUp, validate_configured_channel-IsUp,
  lin_master_sync-IsUp, write_message-IsUp, master_write-IsUp, master_read-IsUp,
  request_slave_response-IsUp, lin_break-IsUp, lin_ex_slave_get_data-IsUp, read_event-IsUp,
}

module _ {S : Type 0} (api : ToomossApi S) where
  rollback-IsUp :
      (initialized : List ℕ) (e : ToomossError) → Preserves IsUp (rollback api initialized e)
  unfolding toomoss_ready
  rollback-IsUp initialized e = record { after = λ s h. go s.usb.procs.elins_stop s h }
    where
      go :
          (there : Bool) (s : Session S)
          → IsUp s
          → IsUp (record s { usb = stop_if api there initialized s.usb })
      go true s h = h
      go false s h = h

  set_rev_time-IsUp :
      (there : Bool) (time channel : ℕ) → Preserves IsUp (set_rev_time api there time channel)
  unfolding toomoss_ready
  set_rev_time-IsUp true time channel = record { after = λ s h. h }
  set_rev_time-IsUp false time channel = record { after = λ s h. h }

  init_channel-IsUp :
      (config : ElinsConfig) (channel : ℕ) → Preserves IsUp (init_channel api config channel)
  unfolding toomoss_ready
  init_channel-IsUp config channel = record { after = λ s h. h }

  unless_failed-IsUp :
      (failed : Bool) (initialized : List ℕ) (e : ToomossError) (next : Method S (Unit {0}))
      → Preserves IsUp next
      → Preserves IsUp (unless_failed api failed initialized e next)
  unless_failed-IsUp true initialized e next h = rollback-IsUp initialized e
  unless_failed-IsUp false initialized e next h = h

  init_each-IsUp :
      (config : ElinsConfig) (rest initialized : List ℕ)
      → Preserves IsUp (init_each api config initialized rest)
  unfolding init_each
  init_each-IsUp config [] initialized = record { after = λ s h. h }
  init_each-IsUp config (channel ∷ rest) initialized =
      let first = init_channel-IsUp config channel in
      let times = λ (there : Bool). set_rev_time-IsUp there config.receive_timeout_us channel in
      let others = init_each-IsUp config rest (channel ∷ initialized) in
      let checked = unless_failed-IsUp in search preserves_rules depth 14

  configure_elins-IsUp : (config : ElinsConfig) → Preserves IsUp (configure_elins api config)
  unfolding configure_elins
  configure_elins-IsUp config =
      let each = λ (c : ElinsConfig). init_each-IsUp c c.channels [] in
      search preserves_rules depth 14

  lin_ex_ctrl_power_out-IsUp :
      (channel vbat : ℕ) → Preserves IsUp (lin_ex_ctrl_power_out api channel vbat)
  unfolding lin_ex_ctrl_power_out
  lin_ex_ctrl_power_out-IsUp channel vbat =
      let checked : Preserves {S = Session S} IsUp (validate_configured_channel channel) =
        validate_configured_channel-IsUp channel in
      let called = call-IsUp (api.ctrl_power_out channel vbat) in search preserves_rules depth 14

  elins_slave_read_into-IsUp :
      (room channel : ℕ) → Preserves IsUp (elins_slave_read_into api room channel)
  unfolding elins_slave_read_into
  elins_slave_read_into-IsUp room channel =
      let checked : Preserves {S = Session S} IsUp (validate_elins_channel channel) =
        validate_elins_channel-IsUp channel in
      let called = call-IsUp (api.elins_get_msg channel room) in search preserves_rules depth 14

  elins_slave_read_filter-IsUp :
      (channel : ℕ) (keep : Option ElinsMsgFilter)
      → Preserves IsUp (elins_slave_read_filter api channel keep)
  unfolding elins_slave_read_filter elins_slave_read
  elins_slave_read_filter-IsUp channel keep =
      let read = elins_slave_read_into-IsUp in search preserves_rules depth 14

  pub perform-IsUp :
      (c : Call) (s : Session S) → is_close c ≡ false → IsUp s → IsUp (perform api c s).1
  unfolding perform elins_slave_read schedule_slave_response
  perform-IsUp (call_read fuel timeout channel) s other h =
      go (read_event api fuel timeout channel s) (read_event-IsUp api fuel timeout channel s h)
    where
      go : (r : Option (Outcome × Session S)) → Leaves IsUp r → IsUp (read_errors s r).1
      go none l = h
      go (some r) l = l
  perform-IsUp (call_sync msg out_msg channel) s other h =
      lin_master_sync-IsUp api msg out_msg channel s h
  perform-IsUp (call_write e channel) s other h = (write_message-IsUp api e channel).after s h
  perform-IsUp (call_schedule e channel) s other h = h
  perform-IsUp (call_master_write frame_id payload channel) s other h =
      (master_write-IsUp api frame_id payload channel).after s h
  perform-IsUp (call_master_read frame_id channel) s other h =
      (master_read-IsUp api frame_id channel).after s h
  perform-IsUp (call_request frame_id channel) s other h =
      (request_slave_response-IsUp api frame_id channel).after s h
  perform-IsUp (call_power_out channel vbat) s other h =
      (lin_ex_ctrl_power_out-IsUp channel vbat).after s h
  perform-IsUp (call_elins_read_into room channel) s other h =
      (elins_slave_read_into-IsUp room channel).after s h
  perform-IsUp (call_break channel) s other h = (lin_break-IsUp api channel).after s h
  perform-IsUp (call_get_data channel) s other h =
      (lin_ex_slave_get_data-IsUp api channel).after s h
  perform-IsUp (call_elins_read channel) s other h =
      (elins_slave_read_into-IsUp elins_slave_read_max_frames channel).after s h
  perform-IsUp (call_elins_read_filter channel keep) s other h =
      (elins_slave_read_filter-IsUp channel keep).after s h
  perform-IsUp (call_configure config) s other h = (configure_elins-IsUp config).after s h
  perform-IsUp call_close s other h = cc
