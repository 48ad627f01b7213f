-- ===== src/Client.antt =====
-- pset4/client_model.hh: what a simulated client does with the responses at its port.
mod Laws
pub mod Setup
mod Tests
use Prim.Native.Nat.{bit_and}
use traxos.Base.{ℕ, ◌-◌, Option, none, some, List, [], ◌∷◌, ◌==◌, if◌then◌else◌}
use traxos.Pancy.Msgs.{
  Request, get_request, put_request, cas_request, remove_request, Response, redirection_response,
  get_response, put_response, cas_response, remove_response, response_serial, GetResponse,
  ModResponse,
}

abbrev pub max_clients : ℕ
max_clients = 4096

abbrev client_mask : ℕ
client_mask = max_clients - 1

abbrev pub serial_step : ℕ
serial_step = 4096

-- The client that a serial is of.
abbrev pub client_of : ℕ → ℕ
client_of serial = bit_and serial client_mask

-- `std::get_if<Resp>`, where `Resp` is the response type of the request.
abbrev pub as_answer : Request → Response → Option Response
as_answer (get_request q) (get_response r) = some (get_response r)
as_answer (put_request q) (put_response r) = some (put_response r)
as_answer (cas_request q) (cas_response r) = some (cas_response r)
as_answer (remove_request q) (remove_response r) = some (remove_response r)
as_answer q msg = none

-- Of a response with the right serial, what `receive_response` returns, and the replica after it.
unfoldable pub receive {ℓ} : {R : Type ℓ} → (Response → Option R) → ℕ → Response → Option R × ℕ
receive as_resp replicaid (redirection_response r) = (none, r.redirection)
receive as_resp replicaid msg = (as_resp msg, replicaid)

-- The loop of `receive_response` over the messages that arrive; `none` is that it waits on. The last
-- component is what has not been received.
pub receive_response {ℓ} :
    {R : Type ℓ}
    → (Response → Option R)
    → ℕ
    → ℕ
    → List Response
    → Option ((Option R × ℕ) × List Response)
unfolding receive
receive_response as_resp replicaid serial [] = none
receive_response as_resp replicaid serial (msg ∷ msgs) =
    let later = receive_response as_resp replicaid serial msgs in
    if response_serial msg == serial then some (receive as_resp replicaid msg, msgs) else later
