-- ===== src/Simulation/Drain.antt =====
-- The simulated drivers have finitely many events to give, so that a transport over them ends.
use linbuskit.Base.{
  ℕ, zero, suc, ◌+◌, ◌<◌, ◌≡◌, refl, ap, arith, List, [], ◌∷◌, Option, none, some, true, ok, length,
  is_some, Result,
}
use linbuskit.Lin.{LinEvent, DriverError, World}
use linbuskit.Transport.State.{Transport}
use linbuskit.Transport.Execute.{execute}
use linbuskit.Transport.Execute.Termination.{Drains, execute_ends}
use linbuskit.Simulation.{
  EventQueues, Network, event_queue, set_queue, pop_queue, read_queue, read_master, read_slave,
  schedule_response, master_world, slave_world,
}

-- The events in all queues of a driver.
abbrev pub queued_events : EventQueues → ℕ
queued_events [] = 0
queued_events ((c, q) ∷ rest) = length q + queued_events rest

abbrev pub slave_queued : ℕ → List EventQueues → ℕ
slave_queued i [] = 0
slave_queued zero (qs ∷ rest) = queued_events qs
slave_queued (suc i) (qs ∷ rest) = slave_queued i rest

abbrev pub master_queued : Option EventQueues → ℕ
master_queued none = 0
master_queued (some qs) = queued_events qs

-- A node of the network: the master, or the slave of a number.
pub data Station : Type 0 where
  the_master : Station
  the_slave : ℕ → Station

abbrev pub station_world : Station → World Network
station_world the_master = master_world
station_world (the_slave i) = slave_world i

-- What waits in the queues of its driver.
abbrev pub station_queued : Station → Network → ℕ
station_queued the_master n = master_queued n.master_driver
station_queued (the_slave i) n = slave_queued i n.slave_drivers

queued_events-set :
    (channel : ℕ) (q : List LinEvent) (qs : EventQueues)
    → queued_events (set_queue channel q qs) + length (event_queue channel qs)
      ≡ queued_events qs + length q
unfolding set_queue event_queue
queued_events-set channel q [] = omega arith
queued_events-set channel q ((c, old) ∷ rest) = ground (arith, queued_events-set channel q rest)

read_queue-takes :
    (channel : ℕ) (qs : EventQueues) (e : LinEvent)
    → (read_queue channel qs).0 ≡ some e
    → queued_events (read_queue channel qs).1 < queued_events qs
unfolding read_queue
read_queue-takes channel qs e h = go (event_queue channel qs) refl h
  where
    go :
        (q : List LinEvent)
        → event_queue channel qs ≡ q
        → (pop_queue channel q qs).0 ≡ some e
        → queued_events (pop_queue channel q qs).1 < queued_events qs
    go [] same h = cc
    go (x ∷ rest) same h =
        let full : length (event_queue channel qs) ≡ suc (length rest) = ap (λ l. length l) same in
        omega (arith, queued_events-set channel rest qs)

read_master-takes :
    (channel : ℕ) (o : Option EventQueues) (e : LinEvent)
    → (read_master channel o).0 ≡ some e
    → master_queued (read_master channel o).1 < master_queued o
read_master-takes channel none e h = cc
read_master-takes channel (some qs) e h = read_queue-takes channel qs e h

read_slave-takes :
    (i channel : ℕ) (l : List EventQueues) (e : LinEvent)
    → (read_slave i channel l).0 ≡ some e
    → slave_queued i (read_slave i channel l).1 < slave_queued i l
read_slave-takes zero channel [] e h = cc
read_slave-takes (suc i) channel [] e h = cc
read_slave-takes zero channel (qs ∷ rest) e h = read_queue-takes channel qs e h
read_slave-takes (suc i) channel (qs ∷ rest) e h = read_slave-takes i channel rest e h

ok-some :
    (o : Option LinEvent) (e : LinEvent)
    → ◌≡◌ {A = Result DriverError (Option LinEvent)} (ok o) (ok (some e))
    → o ≡ some e
ok-some o e h = cc

master-Drains : Drains master_world
unfolding master_world
master-Drains = record {
  waiting = λ n. master_queued n.master_driver;
  read_takes = λ timeout channel n e h. read_master-takes channel n.master_driver e (ok-some _ e h);
  schedule_keeps = λ e channel n. omega arith;
}

slave-Drains : (i : ℕ) → Drains (slave_world i)
unfolding slave_world schedule_response
slave-Drains i = record {
  waiting = λ n. slave_queued i n.slave_drivers;
  read_takes =
      λ timeout channel n e h. read_slave-takes i channel n.slave_drivers e (ok-some _ e h);
  schedule_keeps = λ e channel n. omega arith;
}

-- On the simulated network the round of the master and that of every slave end: one more unit of fuel
-- than events wait in the queues of its own driver is enough.
pub simulated_rounds_end :
    (station : Station) (fuel : ℕ) (t : Transport) (n : Network)
    → station_queued station n < fuel
    → is_some (execute (station_world station) fuel t n) ≡ true
simulated_rounds_end the_master fuel t n h =
    execute_ends master_world master-Drains fuel t n (unfold master-Drains in h)
simulated_rounds_end (the_slave i) fuel t n h =
    execute_ends (slave_world i) (slave-Drains i) fuel t n (unfold slave-Drains in h)
