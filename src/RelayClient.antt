-- ===== src/RelayClient.antt =====
-- connector/relay_client.py: the connector's end of the relay. Whether the socket takes a message is
-- an argument; closing a socket does not raise. The credentials file holds a token, or is absent.
use Prim.Native.String.{◌++◌ as append}
use remote_llmconnector.Shared.{
  Dict, lookup, Value, Env, ℕ, ◌+◌, ◌*◌, ◌-◌, ◌^◌, min, String, Bool, true, false, not, ◌&&◌,
  Option, none, some, List, [], ◌∷◌, ◌++◌, if◌then◌else◌, truthy,
}
use remote_llmconnector.Protocol.{
  MessageType, RelayMessage, PendingPayload, create_auth_message, create_ping_message,
  create_pong_message, validate_pending, validate_approved, validate_revoked,
}
use remote_llmconnector.RelayServer.State.{Outgoing, sent, closed}
pub mod Delay
pub mod Handover
pub mod Rounds
pub mod Closed

pub data ConnectionState : Type 0 where
  disconnected connecting authenticating pending connected reconnecting : ConnectionState

pub record RelayClient : Type 0 where
  pub broker_token : Option String
  pub models : List String
  pub connector_name : Option String
  pub has_credentials_file : Bool
  pub credentials : Option String
  pub reconnect_base_delay : ℕ
  pub reconnect_max_delay : ℕ
  pub state : ConnectionState
  pub ws : Option ℕ
  pub session_id : Option Value
  pub connector_id : Option String
  pub reconnect_attempt : ℕ
  pub running : Bool
  pub keepalive : Bool
  -- The request handlers that were started, and what was written to sockets.
  pub requests : List RelayMessage
  pub outbox : List (ℕ × Outgoing)

-- `_load_credentials`, on the file as it is.
unfoldable pub load_credentials : Bool → Option String → Option String
load_credentials has_file credentials = if has_file then credentials else none

abbrev pub token_or_saved : Option String → Bool → Option String → Option String
token_or_saved (some t) has_file credentials = some t
token_or_saved none has_file credentials = load_credentials has_file credentials

unfoldable pub init :
    Option String → List String → Option String → Bool → Option String → ℕ → ℕ → RelayClient
unfolding load_credentials
init broker_token models connector_name has_file credentials base_delay max_delay = record {
  broker_token = token_or_saved broker_token has_file credentials;
  models = models;
  connector_name = connector_name;
  has_credentials_file = has_file;
  credentials = credentials;
  reconnect_base_delay = base_delay;
  reconnect_max_delay = max_delay;
  state = disconnected;
  ws = none;
  session_id = none;
  connector_id = none;
  reconnect_attempt = 0;
  running = false;
  keepalive = false;
  requests = [];
  outbox = [];
}

-- `_save_credentials` and `_clear_credentials`; a file that cannot be written stays.
unfoldable pub save_credentials : Env → String → RelayClient → RelayClient
save_credentials e api_key c =
    if c.has_credentials_file && e.writable then record c { credentials = some api_key } else c

unfoldable pub clear_credentials : Env → RelayClient → RelayClient
clear_credentials e c =
    if c.has_credentials_file && e.writable then record c { credentials = none } else c

abbrev pub put : ℕ → Outgoing → RelayClient → RelayClient
put socket o c = record c { outbox = c.outbox ++ ((socket, o) ∷ []) }

-- The socket is given up and closed, where there is one.
unfoldable pub drop_socket : Option ℕ → RelayClient → RelayClient
drop_socket none c = c
drop_socket (some socket) c = put socket closed (record c { ws = none; state = disconnected })

-- What comes of an attempt to connect: no socket, a socket that does not take the AUTH message, no
-- answer in time, an answer that is no message, or a message.
pub data Answer : Type 0 where
  no_socket : Answer
  not_sent : Answer
  no_answer : Answer
  unreadable : Answer
  answered : RelayMessage → Answer

-- The `except` branches of `connect`.
abbrev pub give_up : RelayClient → Bool × RelayClient
give_up c = (false, drop_socket c.ws (record c { state = disconnected }))

abbrev pub auth_message : Env → RelayClient → RelayMessage
auth_message e c =
    create_auth_message (append "auth-" e.hex) c.broker_token (some c.models) c.connector_name

abbrev pub enter_pending : Option PendingPayload → RelayClient → Bool × RelayClient
enter_pending none c = give_up c
enter_pending (some p) c = (true, record c { connector_id = some p.connector_id; state = pending })

-- The branches on the type of the broker's answer.
unfoldable pub answer_branch : MessageType → RelayMessage → RelayClient → Bool × RelayClient
unfolding drop_socket validate_pending
answer_branch MessageType.auth_ok m c = (
  true,
  record c { session_id = lookup "session_id" m.payload; state = connected; reconnect_attempt = 0 },
)
answer_branch MessageType.pending m c = enter_pending (validate_pending m.payload) c
answer_branch _ m c = give_up c

unfoldable pub connect : Env → ℕ → Answer → RelayClient → Bool × RelayClient
unfolding answer_branch drop_socket
connect e socket no_socket c = give_up (record c { state = connecting })
connect e socket not_sent c = give_up (record c { state = authenticating; ws = some socket })
connect e socket no_answer c =
    give_up
      (put socket (sent (auth_message e c)) (record c { state = authenticating; ws = some socket }))
connect e socket unreadable c =
    give_up
      (put socket (sent (auth_message e c)) (record c { state = authenticating; ws = some socket }))
connect e socket (answered m) c =
    answer_branch m.type m
      (put socket (sent (auth_message e c)) (record c { state = authenticating; ws = some socket }))

abbrev pub is_active : ConnectionState → Bool
is_active connected = true
is_active pending = true
is_active _ = false

abbrev pub write_to : Option ℕ → Bool → RelayMessage → RelayClient → Bool × RelayClient
write_to none ready m c = (false, c)
write_to (some socket) ready m c = if ready then (true, put socket (sent m) c) else (false, c)

-- `send_message`; false where it raises.
unfoldable pub send_message : Bool → RelayMessage → RelayClient → Bool × RelayClient
send_message up message c = write_to c.ws (up && is_active c.state) message c

abbrev pub accept_key : Env → Option String → RelayClient → RelayClient
accept_key e none c = c
accept_key e (some api_key) c =
    let c' = record (save_credentials e api_key c) {
      broker_token = some api_key;
      reconnect_attempt = 0;
    } in
    drop_socket c'.ws c'

-- A payload that is refused raises, which the message loop logs.
unfoldable pub handle_approved : Env → RelayMessage → RelayClient → RelayClient
unfolding save_credentials drop_socket validate_approved
handle_approved e message c = accept_key e (validate_approved message.payload) c

abbrev pub forget_key : Env → Option String → RelayClient → RelayClient
forget_key e none c = c
forget_key e (some reason) c =
    let c' = record (clear_credentials e c) { broker_token = none } in drop_socket c'.ws c'

unfoldable pub handle_revoked : Env → RelayMessage → RelayClient → RelayClient
unfolding clear_credentials drop_socket validate_revoked
handle_revoked e message c = forget_key e (validate_revoked message.payload) c

unfoldable pub handle_message : Env → Bool → MessageType → RelayMessage → RelayClient → RelayClient
unfolding send_message handle_approved handle_revoked
handle_message e up MessageType.request m c = record c { requests = c.requests ++ (m ∷ []) }
handle_message e up MessageType.ping m c = (send_message up (create_pong_message m.id) c).1
handle_message e up MessageType.approved m c = handle_approved e m c
handle_message e up MessageType.revoked m c = handle_revoked e m c
handle_message e up _ m c = c

-- `_message_loop` over what the socket gives; a text that is no message is logged and passed over.
unfoldable pub message_loop : Env → Bool → List (Option RelayMessage) → RelayClient → RelayClient
unfolding handle_message
message_loop e up [] c = c
message_loop e up (none ∷ ms) c = if c.running then message_loop e up ms c else c
message_loop e up (some m ∷ ms) c =
    if c.running then message_loop e up ms (handle_message e up m.type m c) else c

-- One round of `_keepalive_loop` after its sleep: whether it goes on.
unfoldable pub keepalive_round : Env → Bool → RelayClient → Bool × RelayClient
unfolding send_message
keepalive_round e up c =
    if is_active c.state
    then send_message up (create_ping_message (append "ping-" e.hex)) c
    else (false, c)

-- The delay before the jitter.
unfoldable pub capped_delay : ℕ → ℕ → ℕ → ℕ
capped_delay base_delay max_delay attempt = min (base_delay * 2 ^ min (attempt - 1) 10) max_delay

-- The delay with the jitter of `random() * 0.25`, where `random()` is `draw / scale`: exactly, as a
-- number of parts of which there are `4 * scale` in a unit of time.
unfoldable pub jittered_delay : ℕ → ℕ → ℕ → ℕ → ℕ → ℕ
unfolding capped_delay
jittered_delay base_delay max_delay attempt scale draw =
    capped_delay base_delay max_delay attempt * (4 * scale + draw)

-- `_handle_reconnect`, its sleep over.
unfoldable pub handle_reconnect : RelayClient → RelayClient
handle_reconnect c =
    if c.running
    then record c { state = disconnected; reconnect_attempt = c.reconnect_attempt + 1 }
    else c

-- How a message loop ends.
pub data LoopEnd : Type 0 where
  returned : LoopEnd
  raised : LoopEnd

abbrev pub after_loop : LoopEnd → RelayClient → RelayClient
after_loop returned c = c
after_loop raised c = handle_reconnect (record c { keepalive = false; ws = none })

-- `_message_loop` returns at once where there is no socket.
abbrev pub listen :
    Env → Bool → List (Option RelayMessage) → LoopEnd → Option ℕ → RelayClient → RelayClient
listen e up ms end none c = c
listen e up ms end (some socket) c = after_loop end (message_loop e up ms c)

abbrev pub is_disconnected : ConnectionState → Bool
is_disconnected disconnected = true
is_disconnected _ = false

abbrev pub after_connect :
    Env → Bool → List (Option RelayMessage) → LoopEnd → Bool × RelayClient → RelayClient
after_connect e up ms end (false, c) = handle_reconnect c
after_connect e up ms end (true, c) = listen e up ms end c.ws (record c { keepalive = true })

-- One round of the loop of `run`.
unfoldable pub run_round :
    Env → Bool → ℕ → Answer → List (Option RelayMessage) → LoopEnd → RelayClient → RelayClient
unfolding connect message_loop handle_reconnect
run_round e up socket answer ms end c =
    if is_disconnected c.state
    then after_connect e up ms end (connect e socket answer c)
    else listen e up ms end c.ws c

abbrev pub close_socket : Option ℕ → RelayClient → RelayClient
close_socket none c = c
close_socket (some socket) c = put socket closed c

unfoldable pub stop : RelayClient → RelayClient
stop c = record (close_socket c.ws c) { running = false; keepalive = false; state = disconnected }
