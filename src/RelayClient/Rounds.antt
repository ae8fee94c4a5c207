-- ===== src/RelayClient/Rounds.antt =====
-- The rounds of `run` in connector/relay_client.py: what a failure and a clean close lead to.
use remote_llmconnector.Shared.{
  Env, ℕ, Bool, true, false, Option, none, some, List, [], ◌∷◌, ◌≡◌, ◌≢◌, refl, sym, subst, ◌∙◌,
  arith, inl, inr, Bool-cases, Option-cases, if◌then◌else◌,
}
use remote_llmconnector.Protocol.{MessageType, RelayMessage}
use remote_llmconnector.RelayServer.State.{sent}
use remote_llmconnector.RelayClient.{
  authenticating, RelayClient, disconnected, drop_socket, Answer, no_socket, not_sent, no_answer,
  unreadable, answered, give_up, auth_message, answer_branch, connect, send_message,
  handle_approved, handle_revoked, handle_message, message_loop, handle_reconnect, LoopEnd,
  returned, raised, listen, is_disconnected, after_connect, run_round, save_credentials,
  clear_credentials, put,
}

-- A client that is not disconnected has a socket.
pub record IsSound (c : RelayClient) : Type 0 where
  pub has_socket : is_disconnected c.state ≡ false → c.ws ≢ none

give_up-IsSound : (c : RelayClient) → IsSound (give_up c).1
unfolding drop_socket
give_up-IsSound c = record { has_socket = λ h. ground arith }

answer_branch-IsSound :
    (t : MessageType) (m : RelayMessage) (c : RelayClient) (w : ℕ)
    → c.ws ≡ some w
    → IsSound (answer_branch t m c).1
unfolding answer_branch drop_socket
answer_branch-IsSound t m c w x = record { has_socket = λ h. ground arith }

connect-IsSound :
    (e : Env) (socket : ℕ) (a : Answer) (c : RelayClient) → IsSound (connect e socket a c).1
unfolding connect drop_socket
connect-IsSound e socket no_socket c = record { has_socket = λ h. ground arith }
connect-IsSound e socket not_sent c = record { has_socket = λ h. ground arith }
connect-IsSound e socket no_answer c = record { has_socket = λ h. ground arith }
connect-IsSound e socket unreadable c = record { has_socket = λ h. ground arith }
connect-IsSound e socket (answered m) c =
    answer_branch-IsSound m.type m
      (put socket (sent (auth_message e c)) (record c { state = authenticating; ws = some socket }))
      socket refl

handle_message-keeps :
    (e : Env) (up : Bool) (t : MessageType) (m : RelayMessage) (c : RelayClient)
    → IsSound c
    → IsSound (handle_message e up t m c) × ((handle_message e up t m c).running ≡ c.running)
unfolding handle_message send_message handle_approved handle_revoked drop_socket save_credentials
    clear_credentials
handle_message-keeps e up t m c v =
    (record { has_socket = λ h. ground (arith, v.has_socket) }, ground arith)

-- Of two sound clients that run as `c` does, either one.
either-keeps :
    (b : Bool) (c x y : RelayClient)
    → IsSound x × (x.running ≡ c.running)
    → IsSound y × (y.running ≡ c.running)
    → IsSound (if b then x else y) × ((if b then x else y).running ≡ c.running)
either-keeps true c x y h g = h
either-keeps false c x y h g = g

message_loop-keeps :
    (e : Env) (up : Bool) (ms : List (Option RelayMessage)) (c : RelayClient)
    → IsSound c
    → IsSound (message_loop e up ms c) × ((message_loop e up ms c).running ≡ c.running)
unfolding message_loop
message_loop-keeps e up [] c v = (v, refl)
message_loop-keeps e up (none ∷ ms) c v =
    either-keeps c.running c (message_loop e up ms c) c (message_loop-keeps e up ms c v) (v, refl)
message_loop-keeps e up (some m ∷ ms) c v =
    let d = handle_message e up m.type m c in
    let (w, same) = handle_message-keeps e up m.type m c v in
    let (u, on) = message_loop-keeps e up ms d w in
    either-keeps c.running c (message_loop e up ms d) c (u, on ∙ same) (v, refl)

-- What a round leaves: a sound client that runs, which is disconnected where the round's messages
-- ended in an exception.
pub record Goes (end : LoopEnd) (c : RelayClient) : Type 0 where
  pub sound : IsSound c
  pub runs : c.running ≡ true
  pub lost : end ≡ raised → c.state ≡ disconnected

listen-Goes :
    (e : Env) (up : Bool) (ms : List (Option RelayMessage)) (end : LoopEnd) (w : ℕ)
    (c : RelayClient)
    → IsSound c
    → c.running ≡ true
    → Goes end (listen e up ms end (some w) c)
unfolding handle_reconnect
listen-Goes e up ms returned w c v r =
    let (u, on) = message_loop-keeps e up ms c v in
    record { sound = u; runs = on ∙ r; lost = λ h. cc }
listen-Goes e up ms raised w c v r =
    let (u, on) = message_loop-keeps e up ms c v in
    let runs = on ∙ r in
    record {
      sound = record { has_socket = λ h. ground arith };
      runs = ground arith;
      lost = λ h. ground arith;
    }

handle_reconnect-Goes :
    (end : LoopEnd) (c : RelayClient) → c.running ≡ true → Goes end (handle_reconnect c)
unfolding handle_reconnect
handle_reconnect-Goes end c r = record {
  sound = record { has_socket = λ h. ground arith };
  runs = ground arith;
  lost = λ h. ground arith;
}

connect-running :
    (e : Env) (socket : ℕ) (a : Answer) (c : RelayClient)
    → ((connect e socket a c).1.running ≡ c.running)
      × ((connect e socket a c).0 ≡ true → (connect e socket a c).1.ws ≡ some socket)
unfolding connect answer_branch drop_socket
connect-running e socket no_socket c = (ground arith, λ h. ground arith)
connect-running e socket not_sent c = (ground arith, λ h. ground arith)
connect-running e socket no_answer c = (ground arith, λ h. ground arith)
connect-running e socket unreadable c = (ground arith, λ h. ground arith)
connect-running e socket (answered m) c = (ground arith, λ h. ground arith)

after_connect-Goes :
    (e : Env) (up : Bool) (ms : List (Option RelayMessage)) (end : LoopEnd) (socket : ℕ) (b : Bool)
    (c : RelayClient)
    → IsSound c
    → c.running ≡ true
    → (b ≡ true → c.ws ≡ some socket)
    → Goes end (after_connect e up ms end (b, c))
after_connect-Goes e up ms end socket false c v r w = handle_reconnect-Goes end c r
after_connect-Goes e up ms end socket true c v r w =
    let d = record c { keepalive = true } in
    let u : IsSound d = record { has_socket = v.has_socket } in
    subst (λ o. Goes end (listen e up ms end o d)) (sym (w refl))
      (listen-Goes e up ms end socket d u r)

-- Every round of a client that runs leaves it running and sound: not disconnected only with a
-- socket. Where the round ends in an exception of the socket, the client is disconnected, so that
-- its next round connects again.
pub run_round-Goes :
    (e : Env) (up : Bool) (socket : ℕ) (reply : Answer) (ms : List (Option RelayMessage))
    (end : LoopEnd) (c : RelayClient)
    → IsSound c
    → c.running ≡ true
    → Goes end (run_round e up socket reply ms end c)
unfolding run_round
run_round-Goes e up socket reply ms end c v r = elim (Bool-cases (is_disconnected c.state)) [
  | inl x ↦
      let (on, held) = connect-running e socket reply c in
      rw (x, run_round)
        (after_connect-Goes e up ms end socket (connect e socket reply c).0
          (connect e socket reply c).1 (connect-IsSound e socket reply c) (on ∙ r) held)
  | inr x ↦ elim (Option-cases c.ws) [
    | inl y ↦ absurd (v.has_socket x y)
    | inr (w, y) ↦
        let h : Goes end (listen e up ms end (some w) c) = listen-Goes e up ms end w c v r in
        rw (x, run_round) (subst (λ o. Goes end (listen e up ms end o c)) (sym y) h)
  ]
]
