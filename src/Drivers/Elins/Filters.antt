-- ===== src/Drivers/Elins/Filters.antt =====
-- The filters of ELINS messages in driver/toomoss.go. A filter that is nil is `none`. The list that
-- FilterElinsMsgs returns shares its array with the argument, which it overwrites from the front.
use linbuskit.Base.{
  ℕ, zero, suc, ◌+◌, List, [], ◌∷◌, Option, none, some, Bool, true, false, ◌==◌, if◌then◌else◌,
  length, take,
}

pub record ElinsMsg : Type 0 where
  pub data_len : ℕ
  pub break_bits : ℕ
  pub status : ℕ
  pub flags : ℕ
  pub sync : ℕ
  pub time_stamp_high : ℕ
  pub msg_send_times : ℕ
  pub time_stamp : ℕ
  pub cmd_code : ℕ
  pub dev_id : ℕ
  pub reg_addr : ℕ
  pub crc16 : ℕ
  pub data_bytes : List ℕ
  pub ack_value : List ℕ

abbrev pub ElinsMsgFilter : Type 0
ElinsMsgFilter = ElinsMsg → Bool

abbrev found : ℕ → List ℕ → Bool
found v [] = false
found v (x ∷ xs) = if x == v then true else found v xs

-- An empty list stands for every value.
unfoldable pub elins_contains : List ℕ → ℕ → Bool
elins_contains [] v = true
elins_contains (x ∷ xs) v = found v (x ∷ xs)

unfoldable pub elins_filter_dev_id : List ℕ → ElinsMsgFilter
unfolding elins_contains
elins_filter_dev_id ids m = elins_contains ids m.dev_id

unfoldable pub elins_filter_cmd_code : List ℕ → ElinsMsgFilter
unfolding elins_contains
elins_filter_cmd_code cmds m = elins_contains cmds m.cmd_code

unfoldable pub elins_filter_reg_addr : List ℕ → ElinsMsgFilter
unfolding elins_contains
elins_filter_reg_addr addrs m = elins_contains addrs m.reg_addr

unfoldable pub elins_filter_status : ℕ → ElinsMsgFilter
elins_filter_status status m = m.status == status

unfoldable pub elins_filter_and : List (Option ElinsMsgFilter) → ElinsMsgFilter
elins_filter_and [] m = true
elins_filter_and (none ∷ rest) m = elins_filter_and rest m
elins_filter_and (some f ∷ rest) m = if f m then elins_filter_and rest m else false

-- `msgs[i]` and `msgs[n] = m` on the array. Both stay within its length.
abbrev pub get_msg : ℕ → List ElinsMsg → Option ElinsMsg
get_msg i [] = none
get_msg zero (x ∷ xs) = some x
get_msg (suc i) (x ∷ xs) = get_msg i xs

abbrev pub set_msg : ℕ → ElinsMsg → List ElinsMsg → List ElinsMsg
set_msg n m [] = []
set_msg zero m (x ∷ xs) = m ∷ xs
set_msg (suc n) m (x ∷ xs) = x ∷ set_msg n m xs

abbrev kept_msg : ElinsMsgFilter → Option ElinsMsg → ℕ → List ElinsMsg → List ElinsMsg × ℕ
kept_msg keep none n msgs = (msgs, n)
kept_msg keep (some m) n msgs = if keep m then (set_msg n m msgs, n + 1) else (msgs, n)

-- The loop with `left` messages to go, the next of them at `i`, and `n` kept.
unfoldable pub compact : ElinsMsgFilter → ℕ → ℕ → ℕ → List ElinsMsg → List ElinsMsg × ℕ
compact keep zero i n msgs = (msgs, n)
compact keep (suc left) i n msgs =
    let (msgs', n') = kept_msg keep (get_msg i msgs) n msgs in compact keep left (i + 1) n' msgs'

unfoldable pub filter_elins_msgs : List ElinsMsg → Option ElinsMsgFilter → List ElinsMsg
unfolding compact
filter_elins_msgs msgs none = msgs
filter_elins_msgs msgs (some keep) =
    let (msgs', n) = compact keep (length msgs) 0 0 msgs in take n msgs'

-- What a filter is meant to leave.
abbrev pub filtered : ElinsMsgFilter → List ElinsMsg → List ElinsMsg
filtered keep [] = []
filtered keep (m ∷ rest) = if keep m then m ∷ filtered keep rest else filtered keep rest
