-- ===== src/Tests/ClientRuns.antt =====
-- The relay client at concrete inputs.
use Prim.Native.Nat.{◌*◌, ◌≤◌, ◌<◌}
use remote_llmconnector.Shared.{
  lookup, insert, write, true, Option, List, none, some, [], ◌∷◌, ◌≡◌, refl, arith,
}
use remote_llmconnector.Protocol.{
  RelayMessage, create_auth_ok_message, create_ping_message, create_request_message,
}
use remote_llmconnector.ConnectorStore.Document.{ConnectorStatus, Connector}
use remote_llmconnector.ConnectorStore.Store as Stores
use remote_llmconnector.RelayServer.State
use remote_llmconnector.RelayServer.State.{RelayServer}
use remote_llmconnector.RelayServer.Authentication.{text, authenticate}
use remote_llmconnector.RelayServer.Access.{identity_of}
use remote_llmconnector.RelayClient
use remote_llmconnector.RelayClient.{
  RelayClient, connected, no_socket, answered, returned, raised, auth_message, run_round,
  capped_delay, jittered_delay,
}
use remote_llmconnector.RelayClient.Delay.{jittered_delay-bounds, jittered_delay-over_max}
use remote_llmconnector.RelayClient.Handover.{turned_away, identity-revoked}
use remote_llmconnector.RelayClient.Rounds.{IsSound, Goes, run_round-Goes}
use remote_llmconnector.RelayClient.Closed.{Round, any_leaves, closed_rounds, run_round-closed}
use remote_llmconnector.Tests.Data.{env}

-- A client without a key, and the same with a connection.
abbrev client : RelayClient
client = record (RelayClient.init none ("m1" ∷ []) none true none 1 300) { running = true }

abbrev pub linked : RelayClient
linked = record client { state = connected; ws = some 4 }

linked-IsSound : IsSound linked
linked-IsSound = record { has_socket = λ h. λ e. cc e }

-- The store where the client's connector waits for its approval.
abbrev pub asked : Stores.ConnectorStore
asked = (Stores.create_pending env ("m1" ∷ []) none (Stores.empty true)).1

abbrev pub waiting_connector : Connector
waiting_connector = record {
  connector_id = "conn-a1";
  api_key = none;
  name = none;
  models = "m1" ∷ [];
  status = ConnectorStatus.pending;
  created_at = 5;
  last_used = none;
  last_connected = some 5;
}

pub asked_connector : Stores.get_by_id asked "conn-a1" ≡ some (0, waiting_connector)
unfolding lookup insert Stores.create_pending Stores.get_by_id Stores.save write
asked_connector = refl

abbrev server : RelayServer
server = State.init [] [] (some (Stores.approve env "conn-a1" asked).1) none

identity-revoked_example :
    identity_of
      (authenticate env true 9
        (text (some (auth_message env (turned_away env true "revoke-1" (some "gone") linked))))
        server).0
    ≡ none
unfolding State.init
identity-revoked_example =
    identity-revoked env true true "revoke-1" (some "gone") linked 9 server
      (Stores.approve env "conn-a1" asked).1 refl

-- A round with one message, after which the socket fails.
run_round-Goes_example : Goes raised (
    run_round env true 9
      (answered (create_auth_ok_message "auth-1" "s1"))
      (some (create_request_message "req-1" "POST" "/v1/chat/completions" [] "" none) ∷ [])
      raised
      linked)
run_round-Goes_example =
    run_round-Goes env true 9 (answered (create_auth_ok_message "auth-1" "s1"))
      (some (create_request_message "req-1" "POST" "/v1/chat/completions" [] "" none) ∷ []) raised
      linked linked-IsSound refl

-- The broker accepts the client, asks it something, and closes; two rounds follow.
abbrev arrived : List (Option RelayMessage)
arrived = none ∷ some (create_ping_message "ping-1") ∷ []

abbrev later : List Round
later =
    record { e = env; up = true; socket = 10; reply = no_socket }
    ∷ record {
      e = env;
      up = true;
      socket = 11;
      reply = answered (create_auth_ok_message "auth-2" "s2");
    }
    ∷ []

run_round-closed_example :
    let d =
      run_round env true 9
        (answered (create_auth_ok_message "auth-1" "s1"))
        arrived
        returned
        client in
    (d.state ≡ connected) × (d.ws ≡ some 9) × (closed_rounds later d ≡ d)
unfolding create_auth_ok_message create_ping_message any_leaves RelayClient.init
run_round-closed_example =
    run_round-closed env true 9 (create_auth_ok_message "auth-1" "s1") arrived client later refl
      refl refl refl

-- The default settings in seconds: the third attempt, and the tenth, at the maximum.
jittered_delay-bounds_example :
    (capped_delay 1 300 3 * (4 * 100) ≤ jittered_delay 1 300 3 100 37)
    × (jittered_delay 1 300 3 100 37 ≤ 300 * (5 * 100))
jittered_delay-bounds_example = jittered_delay-bounds 1 300 3 100 37 (omega arith)

jittered_delay-over_max_example : 300 * (4 * 100) < jittered_delay 1 300 10 100 37
jittered_delay-over_max_example =
    jittered_delay-over_max 1 300 10 100 37 (omega arith) (omega arith) (omega arith)
