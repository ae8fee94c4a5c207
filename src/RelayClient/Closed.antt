-- ===== src/RelayClient/Closed.antt =====
-- What a clean close of the socket leads to in `run` and `_message_loop` of
-- connector/relay_client.py.
use remote_llmconnector.Shared.{
  Env, ℕ, Bool, true, false, ◌||◌, Option, none, some, List, [], ◌∷◌, ◌≡◌, refl, ap, ◌∙◌, arith,
  if◌then◌else◌, Option-cases, inl, inr,
}
use remote_llmconnector.Protocol.{MessageType, RelayMessage}
use remote_llmconnector.RelayClient.{
  connected, RelayClient, Answer, answered, connect, answer_branch, send_message, handle_message,
  message_loop, returned, is_disconnected, run_round,
}

-- Whether a message makes the client leave the connection.
abbrev leaves : MessageType → Bool
leaves MessageType.approved = true
leaves MessageType.revoked = true
leaves _ = false

unfoldable pub any_leaves : List (Option RelayMessage) → Bool
any_leaves [] = false
any_leaves (none ∷ ms) = any_leaves ms
any_leaves (some m ∷ ms) = leaves m.type || any_leaves ms

-- One later round of `run`: what its `connect` would get.
pub record Round : Type 0 where
  pub e : Env
  pub up : Bool
  pub socket : ℕ
  pub reply : Answer

-- The rounds of `run` after the socket was closed: each time the loop over its messages returns at
-- once.
unfoldable pub closed_rounds : List Round → RelayClient → RelayClient
closed_rounds [] c = c
closed_rounds (r ∷ rounds) c =
    closed_rounds rounds (run_round r.e r.up r.socket r.reply [] returned c)

-- A client that runs, is connected, and has the socket.
pub record IsOn (socket : ℕ) (c : RelayClient) : Type 0 where
  pub runs : c.running ≡ true
  pub state : c.state ≡ connected
  pub holds : c.ws ≡ some socket

handle_message-IsOn :
    (e : Env) (up : Bool) (t : MessageType) (m : RelayMessage) (c : RelayClient) (socket : ℕ)
    → leaves t ≡ false
    → IsOn socket c
    → IsOn socket (handle_message e up t m c)
unfolding handle_message send_message
handle_message-IsOn e up t m c socket h v = record {
  runs = ground (arith, v.runs);
  state = ground (arith, v.state);
  holds = ground (arith, v.holds);
}

if-IsOn :
    (socket : ℕ) (b : Bool) (x y : RelayClient)
    → b ≡ true
    → IsOn socket x
    → IsOn socket (if b then x else y)
if-IsOn socket true x y h v = v
if-IsOn socket false x y h v = cc

message_loop-IsOn :
    (e : Env) (up : Bool) (ms : List (Option RelayMessage)) (c : RelayClient) (socket : ℕ)
    → any_leaves ms ≡ false
    → IsOn socket c
    → IsOn socket (message_loop e up ms c)
unfolding message_loop any_leaves
message_loop-IsOn e up [] c socket h v = v
message_loop-IsOn e up (none ∷ ms) c socket h v =
    if-IsOn socket c.running (message_loop e up ms c) c (v.runs)
      (message_loop-IsOn e up ms c socket h v)
message_loop-IsOn e up (some m ∷ ms) c socket h v =
    let d = handle_message e up m.type m c in
    let w = handle_message-IsOn e up m.type m c socket (ground arith) v in
    if-IsOn socket c.running (message_loop e up ms d) c (v.runs)
      (message_loop-IsOn e up ms d socket (ground arith) w)

-- A round that connects, with an AUTH_OK, and ends in a clean close.
run_round-IsOn :
    (e : Env) (up : Bool) (socket : ℕ) (m : RelayMessage) (ms : List (Option RelayMessage))
    (c : RelayClient)
    → is_disconnected c.state ≡ true
    → c.running ≡ true
    → m.type ≡ MessageType.auth_ok
    → any_leaves ms ≡ false
    → IsOn socket (run_round e up socket (answered m) ms returned c)
unfolding run_round connect answer_branch
run_round-IsOn e up socket m ms c h r ok none_leaves =
    rw (h, run_round)
      (rw ok (
        message_loop-IsOn e up ms _ socket none_leaves
          (record { runs = r; state = refl; holds = refl })))

-- A round in which nothing arrives and the loop returns.
round_lem :
    (e : Env) (up : Bool) (s socket : ℕ) (a : Answer) (c : RelayClient)
    → IsOn socket c
    → run_round e up s a [] returned c ≡ c
unfolding run_round message_loop
round_lem e up s socket a c v = elim (Option-cases c.ws) [
  | inl y ↦ ground (arith, v.state)
  | inr (w, y) ↦ ground (arith, v.state)
]

closed_rounds-IsOn :
    (rounds : List Round) (c : RelayClient) (socket : ℕ)
    → IsOn socket c
    → closed_rounds rounds c ≡ c
unfolding closed_rounds
closed_rounds-IsOn [] c socket v = refl
closed_rounds-IsOn (r ∷ rounds) c socket v =
    ap (closed_rounds rounds) (round_lem r.e r.up r.socket socket r.reply c v)
    ∙ closed_rounds-IsOn rounds c socket v

-- Where the broker accepts a client that connects, and later, after any messages but APPROVED and
-- REVOKED, closes the socket cleanly, the client takes itself for connected and keeps the closed
-- socket; and however many rounds of `run` follow, whatever they could get, none of them changes
-- anything: the client never connects again.
pub run_round-closed :
    (e : Env) (up : Bool) (socket : ℕ) (m : RelayMessage) (ms : List (Option RelayMessage))
    (c : RelayClient) (rounds : List Round)
    → is_disconnected c.state ≡ true
    → c.running ≡ true
    → m.type ≡ MessageType.auth_ok
    → any_leaves ms ≡ false
    → let d = run_round e up socket (answered m) ms returned c in
      (d.state ≡ connected) × (d.ws ≡ some socket) × (closed_rounds rounds d ≡ d)
run_round-closed e up socket m ms c rounds h r ok none_leaves =
    let v = run_round-IsOn e up socket m ms c h r ok none_leaves in
    (v.state, v.holds, closed_rounds-IsOn rounds _ socket v)
