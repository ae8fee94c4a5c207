-- ===== src/RelayServer/Sending.antt =====
-- What a request that its socket takes leaves in broker/relay_server.py: `send_request` and
-- `send_request_streaming` up to their waits.
use remote_llmconnector.Shared.{insert, write, ℕ, String, true, some, [], ◌≡◌, refl, ap, ◌∙◌, arith}
use remote_llmconnector.Protocol.{RelayMessage}
use remote_llmconnector.RelayServer.State.{
  RelayServer, ConnectorRegistration, waiting, future, queue, sent, emit, registered,
}
use remote_llmconnector.RelayServer.Requests.{
  waits, enter_request, send_request, send_request_streaming,
}

module _ (s : RelayServer) (i : String) (message : RelayMessage) (n : ℕ) (c : ConnectorRegistration)
    (h : registered s i ≡ some (n, c)) where
  pub send_request-up : send_request true i message s ≡ (
    waits n s.next_slot,
    emit c.websocket (sent message) (enter_request n c message.id (future waiting) s),
  )
  unfolding send_request
  send_request-up = rw (h, send_request) refl

  pub send_request_streaming-up : send_request_streaming true i message s ≡ (
    waits n s.next_slot,
    emit c.websocket (sent message) (enter_request n c message.id (queue []) s),
  )
  unfolding send_request_streaming
  send_request_streaming-up = rw (h, send_request_streaming) refl

  -- The connector stays registered, with one more request.
  pub registered-send_request :
      registered (send_request true i message s).1 i
      ≡ some (n, record c { pending_requests = insert message.id s.next_slot c.pending_requests })
  unfolding registered enter_request write
  registered-send_request = ap (λ x. registered x.1 i) send_request-up ∙ ground (arith, h)

  -- The request's slot is a future that waits.
  pub slots-send_request :
      (send_request true i message s).1.slots s.next_slot ≡ some (future waiting)
  unfolding enter_request write
  slots-send_request = ap (λ x. x.1.slots s.next_slot) send_request-up ∙ ground arith
