-- ===== src/ConnectorService/Shutdown.antt =====
-- connector/main.py, `shutdown` and `cleanup`. The requests in flight change while `shutdown` sleeps:
-- what it finds after each sleep is an argument.
use remote_llmconnector.Shared.{
  ℕ, zero, suc, ◌+◌, ◌≤◌, ◌<◌, String, Bool, true, false, Option, none, some, List, [], ◌∷◌, ◌≡◌,
  if◌then◌else◌,
}
use remote_llmconnector.RelayClient
use remote_llmconnector.RelayClient.{RelayClient}
use remote_llmconnector.ConnectorService.LlmClient
use remote_llmconnector.ConnectorService.LlmClient.{LlmClient}

abbrev pub is_idle : List String → Bool
is_idle [] = true
is_idle (k ∷ ks) = false

-- The loop `for _ in range(n)`, at its round `k`: how often it sleeps in all.
unfoldable pub wait_rounds : ℕ → ℕ → (ℕ → List String) → ℕ
wait_rounds zero k in_flight = k
wait_rounds (suc n) k in_flight =
    let later = wait_rounds n (k + 1) in_flight in if is_idle (in_flight k) then k else later

abbrev pub stop_client : Option RelayClient → Option RelayClient
stop_client none = none
stop_client (some c) = some (RelayClient.stop c)

-- The seconds of the wait.
unfoldable pub wait_idle : ℕ → (ℕ → List String) → ℕ
unfolding wait_rounds
wait_idle n in_flight = if is_idle (in_flight 0) then 0 else wait_rounds n 0 in_flight

-- `shutdown`: the seconds that it waits, and the relay client afterwards.
unfoldable pub shutdown : (ℕ → List String) → Option RelayClient → ℕ × Option RelayClient
unfolding wait_idle RelayClient.stop
shutdown in_flight client = (wait_idle 30 in_flight, stop_client client)

-- `cleanup`
abbrev pub cleanup : LlmClient → LlmClient
cleanup c = LlmClient.close c

module _ (in_flight : ℕ → List String) where
  abbrev Waited : ℕ → ℕ → ℕ → Type 0
  Waited n k m =
      (m ≤ n + k)
      × ((j : ℕ) → k ≤ j → j < m → is_idle (in_flight j) ≡ false)
      × (m < n + k → is_idle (in_flight m) ≡ true)
