-- ===== src/Client/Tests.antt =====
-- A client's exchanges on concrete inputs, after a stale response.
use traxos.Base.{◌≡◌, refl, none, some, [], ◌∷◌, arith}
use traxos.Pancy.Msgs.{Response, request_serial, response_serial}
use traxos.Pancy.Db.Spec.{step}
use traxos.Pancy.Tests.{locked, locked-IsValid, lock_again, write}
use traxos.Replica.{handle, handle-leader, redirection}
use traxos.Replica.Tests.{leader, follower}
use traxos.Client.{as_answer, receive_response}
use traxos.Client.Laws.{redirected, answered}

-- The redirection of an earlier request.
abbrev stale : Response
stale = redirection lock_again 2

sent : handle write follower ≡ some (redirection write 1, follower)
unfolding handle
sent = refl

redirected_example :
    receive_response (as_answer write) 0 8195 (stale ∷ redirection write 1 ∷ [])
    ≡ some ((none, 1), [])
unfolding request_serial response_serial
redirected_example =
    redirected (as_answer write) 0 write follower follower (stale ∷ []) (redirection write 1) []
      (λ e. omega arith) ((λ e. omega arith), tt) sent

answered_example :
    receive_response (as_answer write) 1 8195 (stale ∷ (step write locked).0 ∷ [])
    ≡ some ((some ((step write locked).0), 1), [])
unfolding request_serial response_serial
answered_example =
    answered write 1 leader (record leader { world = (step write locked).1 }) (stale ∷ [])
      (step write locked).0 [] refl locked-IsValid (omega arith) ((λ e. omega arith), tt)
      (handle-leader write leader refl locked-IsValid (omega arith))
