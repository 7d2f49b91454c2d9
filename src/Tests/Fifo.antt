-- ===== src/Tests/Fifo.antt =====
-- A small TSMaster library, and the loop of driver/tsmaster.go on it.
use linbuskit.Base.{ℕ, ◌+◌, arith, [], ◌∷◌, none, true, All, pos}
use linbuskit.Drivers.Queues.{HoldsFrames, HoldsFrames-none}
use linbuskit.Drivers.TsMaster.{TsMasterLin}
use linbuskit.Drivers.TsMaster.Methods.{TsMasterDevice, TsMasterApi, receive_round}
use linbuskit.Drivers.TsMaster.Queued.{HasEight, receive_round-HoldsFrames}

abbrev answer : ℕ → TsMasterLin
answer n = record {
  dlc = 20;
  identifier = 0x7D;
  properties = 0;
  err_status = 0;
  data_bytes = n ∷ 2 ∷ 3 ∷ 4 ∷ 5 ∷ 6 ∷ 7 ∷ 8 ∷ [];
}

-- The library has two messages for each channel; its state is the time.
abbrev fifo_api : TsMasterApi ℕ
fifo_api = record {
  transmit = λ channel m s. (0, s);
  receive_msgs = λ room channel s. ((0, (pos 2, answer channel ∷ answer 1 ∷ [])), s);
  now = λ s. s;
  wait = λ d s. s + d;
}

fifo_eight : (room channel : ℕ) (s : ℕ) → All HasEight (fifo_api.receive_msgs room channel s).0.1.1
fifo_eight room channel s = (omega arith, (omega arith, tt))

abbrev listening : TsMasterDevice ℕ
listening = record {
  connected = true;
  has_transmit = true;
  channels = 0 ∷ 3 ∷ [];
  errors = [];
  frames = record { last_frame = none; queues = [] };
  library = 100;
}

receive_round-HoldsFrames_example : HoldsFrames 128 (receive_round fifo_api listening).frames.queues
receive_round-HoldsFrames_example =
    receive_round-HoldsFrames fifo_api fifo_eight listening (HoldsFrames-none 128)
