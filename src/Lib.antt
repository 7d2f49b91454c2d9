-- ===== src/Lib.antt =====
-- A library for LIN bus diagnostics: the transport protocol over LIN frames, a slave node, a master
-- node, a UDS client, a simulated bus, and presets that join a device with a client.
--
-- The parts, from below. liniface/liniface.go gives events and the interface of a driver (Lin.antt); a
-- driver is a record of functions over a state, with the clock beside it in `World`. tplin/transport.go
-- and tplin/adapter.go are the modules under Transport: Config (constants, normalizeTransportConfig),
-- State (the Transport struct; a Go channel is the list of what waits in it), Frames (buildFrames),
-- Assembly (the switch on the PCI type in receiveFromDriver), Queues (Transmit, Receive,
-- deliverMessage, reportError, Run, Close, the awaiting flag) and Execute (receiveFromDriver, execute
-- and the loop body of Run). tplin/slave.go is Slave.antt, tplin/master.go is Master.antt,
-- uds_client/client_lin.go is Client.antt and uds_client/response_code.go is ResponseCode.antt. The
-- master and the slave use the transport, the client uses the master's transport. tplin/simulation.go
-- is Simulation.antt, whose drivers are worlds for the transport; preset/preset.go is Preset.antt, a
-- device with a client.
--
-- Under Drivers stand the hardware drivers. A method of a device is an action (Action): a step on the
-- driver and on what the vendor's library keeps, with a value or an error; Action/Preserves and
-- Action/Ensures have its rules, and Action/Repeat the loops that run until a turn ends them. Queues is
-- about the queues of events that the drivers keep for each channel, Channels about the checks of the
-- channels in their configurations, MasterRead is readMasterResponse of driver/common.go (Ends and Payload have its proofs). Pcan is
-- driver/pcan.go: Device (the PCAN struct, the procedures of PLinApi.dll, the tests of state and
-- channel), Config (normalizePCANConfig), Opening (register, availableHardware, mapHardware,
-- connectAndInitialize), Lifetime (NewPCANWithConfig, Reset, HardwareInfo, Close), Traffic (ReadEvent,
-- WriteMessage, RequestSlaveResponse, ScheduleSlaveResponse) and Calls (a run of calls). Vector is
-- driver/vector.go, with Device, Config, Opening (open, resolveChannels, Close), Traffic (ReadEvent)
-- and Sending (WriteMessage and the other calls) likewise. The vendors' libraries are parameters:
-- records of functions over a state of their own. TsMaster is dispatchLIN of driver/tsmaster.go, with
-- receiveLoop and the other methods behind the constructor in TsMaster/Methods, and LinBreak in
-- TsMaster/Break. Elins has the configuration of ELINS channels and the filters of messages in
-- driver/toomoss.go, and Toomoss the rest of it: Device (the global variables, the Toomoss struct and
-- the procedures of USB2XXX.dll, the checks of a channel), Usb (ensureToomossLoaded, usbScan, usbOpen,
-- usbClose), Lifetime (NewToomoss, Close), Traffic (LinMasterSync, ReadEvent, WriteMessage and the
-- other calls for LIN) and Session (ConfigureELINS and the calls for ELINS). Of the proofs, Kept,
-- Created and Used say what the calls keep, Host is about all devices of a process, with a step for
-- each call, Calls about a closed one, Reading and Batch about ReadEvent, Session/Stopping,
-- Session/Running and Session/Configured about the ELINS channels that run.
--
-- How the code is read. Bytes, lengths and times are natural numbers, with the wrap-around of a byte
-- written out; sizes and durations that a caller may give as zero or negative are integers. A payload
-- is read by index only behind a test of its length. `x & 0x0F` and `x >> 4` are `x % 16` and `x / 16`;
-- `|` is the native bitwise or. Each method is one step on the state, as its mutexes make it. A
-- blocking wait takes the list of what arrives while it waits, and `none` is a call that still waits.
-- For the client each arrival has a time, so that deadlines are part of the model.
--
-- Bounds and fuel. The read loop of execute takes fuel, since a driver may give events for ever; one
-- unit more than there are events waiting is enough. The loop over consecutive frames takes the length
-- of the data, since each round takes a byte at least. The loop of readMasterResponse takes fuel too:
-- one unit more than there are events to come and nanoseconds in the timeout is enough, where the clock
-- moves on while a read waits. So do the loops
-- of ReadEvent in driver/pcan.go and driver/vector.go: one unit more than there are messages to come
-- and nanoseconds in the timeout is enough, where the library has finitely many messages and its clock
-- moves on in a pause. In driver/toomoss.go the nanoseconds alone are enough, since a turn that finds a
-- message returns it.
--
-- Not modelled: logging, the mutexes and goroutines themselves, the texts of errors, the search for the
-- vendors' libraries in the registry and the file system, how the TSMaster library is started and
-- closed, and driver/toomoss_darwin.go, which repeats driver/toomoss.go for another system. What
-- another goroutine puts into a queue while a ReadEvent pauses is found in the next turn of its loop.
-- An error of a driver that itself wraps an error of a context is taken for a driver error.
pub mod Base
pub mod Lin
pub mod Transport
pub mod Slave
pub mod Master
pub mod Client
pub mod ResponseCode
pub mod Simulation
pub mod Preset
pub mod Drivers
mod Tests
