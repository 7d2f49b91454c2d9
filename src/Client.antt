-- ===== src/Client.antt =====
-- The UDS client of uds_client/client_lin.go. What happens while it waits is a list of arrivals with
-- the times at which they come, earliest first; a context without a deadline is `none`.
pub mod Wait
pub mod Retry
use linbuskit.Base.{
  ℕ, zero, suc, ◌+◌, ◌*◌, ◌%◌, ◌<◌, ℤ, pos, negsuc, pos_part, is_nonpositive, is_negative, List, [],
  ◌∷◌, Option, none, some, Bool, true, false, ◌&&◌, not, ltb, ◌==◌, if◌then◌else◌, length,
}
use linbuskit.Transport.Config.{
  TransportConfig, default_transport_config, millisecond, broadcast_nad,
}
use linbuskit.Transport.State.{
  Transport, LinMessage, Error, transport_closed, new_transport_with_config,
}
use linbuskit.Transport.Assembly.{byte_at}
use linbuskit.Transport.Queues.{transmit, receive, stop_awaiting_slave_response, run, close}
use linbuskit.Master.{Arrival, message, failure, closed, ended, ContextError}

-- A nil map of retryable services is the empty list.
pub record ClientConfig : Type 0 where
  pub target_nad : ℕ
  pub default_timeout : ℤ
  pub response_pending_timeout : ℤ
  pub max_retries : ℤ
  pub retryable_sids : List (ℕ × Bool)
  pub channel : ℕ
  pub continuous_slave_poll : Bool

unfoldable pub default_client_config : ℕ → ClientConfig
default_client_config target_nad = record {
  target_nad = target_nad;
  default_timeout = pos (2000 * millisecond);
  response_pending_timeout = pos (5000 * millisecond);
  max_retries = pos 0;
  retryable_sids = [];
  channel = 0;
  continuous_slave_poll = false;
}

-- The map is copied, so a later change by the caller is not seen: lists are values.
unfoldable pub normalize_client_config : ClientConfig → ClientConfig
unfolding default_client_config
normalize_client_config c =
    let d = default_client_config c.target_nad in
    record c {
      default_timeout =
          if is_nonpositive c.default_timeout then d.default_timeout else c.default_timeout;
      response_pending_timeout =
          if is_nonpositive c.response_pending_timeout
          then d.response_pending_timeout
          else c.response_pending_timeout;
      max_retries = if is_negative c.max_retries then pos 0 else c.max_retries;
    }

-- The client owns a master, and that is its transport.
pub record Client : Type 0 where
  pub transport : Transport
  pub config : ClientConfig

unfoldable pub new_client_with_config : ClientConfig → Client
unfolding normalize_client_config default_transport_config
new_client_with_config config =
    let c = normalize_client_config config in
    let tp = record default_transport_config { continuous_slave_poll = c.continuous_slave_poll } in
    record { transport = run (new_transport_with_config false tp (c.channel ∷ [])); config = c }

unfoldable pub close_client : Client → Client
close_client c = record c { transport = close c.transport }

pub data ClientError : Type 0 where
  empty_request response_timeout : ClientError
  context_ended : ContextError → ClientError
  send_failed transport_failed : Error → ClientError
  negative_response : ℕ → ℕ → ClientError

-- The three results: a negative response comes with its NAD, its bytes and an error.
pub record Answer : Type 0 where
  pub nad : ℕ
  pub response : List ℕ
  pub error : Option ClientError

abbrev pub failed : ClientError → Answer
failed e = record { nad = 0; response = []; error = some e }

-- `responseWaitContext`, entered at `now`.
unfoldable pub response_wait_context : ℕ → ℤ → Option ℕ
response_wait_context now timeout =
    if is_nonpositive timeout then none else some (now + pos_part timeout)

abbrev pub is_expired : Option ℕ → ℕ → Bool
is_expired none time = false
is_expired (some deadline) time = ltb deadline time

-- What one message means to a request for the service `sid` to the node `nad`.
pub data Verdict : Type 0 where
  ignore pending : Verdict
  answer : Answer → Verdict

abbrev full_response : LinMessage → Option ClientError → Verdict
full_response msg e = answer (record { nad = msg.nad; response = msg.sid ∷ msg.payload; error = e })

unfoldable pub judge_negative : ℕ → LinMessage → Verdict
judge_negative sid msg =
    if (if ltb (length msg.payload) 2 then true else not (byte_at msg.payload 0 == sid))
    then ignore
    else if byte_at msg.payload 1 == 0x78
    then pending
    else full_response msg
        (some (negative_response (byte_at msg.payload 0) (byte_at msg.payload 1)))

unfoldable pub judge : ℕ → ℕ → LinMessage → Verdict
unfolding judge_negative
judge nad sid msg =
    if not (nad == broadcast_nad) && not (msg.nad == nad)
    then ignore
    else if msg.sid == 0x7F
    then judge_negative sid msg
    else if msg.sid == (sid + 0x40) % 256
    then full_response msg none
    else ignore

-- Nothing arrives any more: the deadline passes, if there is one.
abbrev pub after_last : Option ℕ → Option Answer
after_last none = none
after_last (some deadline) = some (failed response_timeout)

-- The loop of `sendAndRec`. `none` is a call that still waits after all that has arrived. A pending
-- response replaces the deadline.
unfoldable pub await_answer : ℤ → ℕ → ℕ → Option ℕ → List (ℕ × Arrival) → Option Answer
unfolding judge
await_answer p2 nad sid deadline [] = after_last deadline
await_answer p2 nad sid deadline ((time, arrival) ∷ rest) = elim (is_expired deadline time) [
  | true ↦ some (failed response_timeout)
  | false ↦ elim arrival [
    | message msg ↦ elim (judge nad sid msg) [
      | ignore ↦ await_answer p2 nad sid deadline rest
      | pending ↦ await_answer p2 nad sid (response_wait_context time p2) rest
      | answer a ↦ some a
    ]
    | failure e ↦ some (failed (transport_failed e))
    | closed ↦ some (failed (transport_failed transport_closed))
    | ended c ↦ some (failed (context_ended c))
  ]
]

-- Step 1 of `sendAndRec`: what is left in the receive queue is thrown away.
unfoldable pub discard_messages : List LinMessage → Transport → Transport
discard_messages [] t = t
discard_messages (msg ∷ rest) t = discard_messages rest (receive t).0

-- The transport is what these calls make of it; it is stopped once the call has its answer.
abbrev pub settle : Transport → Option Answer → Transport × Option Answer
settle t none = (t, none)
settle t (some a) = (stop_awaiting_slave_response t, some a)

abbrev pub after_send : Option Answer → Transport × Option Error → Transport × Option Answer
after_send waited (t, some e) = (t, some (failed (send_failed e)))
after_send waited (t, none) = settle t waited

-- When an attempt starts to wait, and what arrives from then on.
pub record Script : Type 0 where
  pub start : ℕ
  pub arrivals : List (ℕ × Arrival)

unfoldable pub send_and_rec :
    ClientConfig → ℕ → List ℕ → ℤ → Script → Transport → Transport × Option Answer
unfolding await_answer discard_messages
send_and_rec config nad [] timeout script t = (t, some (failed empty_request))
send_and_rec config nad (sid ∷ payload) timeout script t =
    after_send
      (await_answer config.response_pending_timeout nad sid
        (response_wait_context script.start timeout) script.arrivals)
      (transmit nad sid payload (discard_messages t.rx_queue t))

abbrev pub is_timeout : Option Answer → Bool
is_timeout none = false
is_timeout (some a) = elim a.error [ some response_timeout ↦ true | _ ↦ false ]

-- The loop over attempts, `left` retries from attempt `i` on.
unfoldable pub attempt_loop :
    ClientConfig → ℕ → List ℕ → ℤ → (ℕ → Script) → ℕ → ℕ → Transport → Transport × Option Answer
attempt_loop config nad payload timeout scripts zero i t =
    send_and_rec config nad payload timeout (scripts i) t
attempt_loop config nad payload timeout scripts (suc left) i t =
    let (t', result) = send_and_rec config nad payload timeout (scripts i) t in
    elim (is_timeout result) [
      | true ↦ attempt_loop config nad payload timeout scripts left (suc i) t'
      | false ↦ (t', result)
    ]

-- A missing key of the map is `false`.
abbrev pub is_retryable : ℕ → List (ℕ × Bool) → Bool
is_retryable sid [] = false
is_retryable sid ((s, enabled) ∷ rest) = if s == sid then enabled else is_retryable sid rest

abbrev pub max_retries_for : ClientConfig → List ℕ → ℕ
max_retries_for config [] = 0
max_retries_for config (sid ∷ payload) =
    if is_retryable sid config.retryable_sids then pos_part config.max_retries else 0

abbrev pub timeout_or_default : ClientConfig → ℤ → ℤ
timeout_or_default config timeout =
    if is_nonpositive timeout then config.default_timeout else timeout

unfoldable pub send_and_rec_with_retries :
    ℕ → List ℕ → ℤ → (ℕ → Script) → Client → Client × Option Answer
unfolding attempt_loop
send_and_rec_with_retries nad payload timeout scripts c =
    let (t, result) =
      attempt_loop c.config nad payload (timeout_or_default c.config timeout) scripts
        (max_retries_for c.config payload) 0 c.transport in
    (record c { transport = t }, result)

-- `SendAndRec`, and `SendAndRecWithContext`, which sets no timeout of its own and never retries.
unfoldable pub send_and_rec_default : List ℕ → ℤ → (ℕ → Script) → Client → Client × Option Answer
unfolding send_and_rec_with_retries
send_and_rec_default payload timeout scripts c =
    send_and_rec_with_retries c.config.target_nad payload timeout scripts c

unfoldable pub send_and_rec_with_context : List ℕ → Script → Client → Client × Option Answer
unfolding send_and_rec
send_and_rec_with_context payload script c =
    let (t, result) =
      send_and_rec c.config c.config.target_nad payload (pos 0) script c.transport in
    (record c { transport = t }, result)
