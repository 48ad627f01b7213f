-- ===== src/Replica/Tests.antt =====
-- The replicas on concrete inputs: a leader whose database is locked, and a follower.
use traxos.Base.{
  ◌≤◌, ◌≡◌, ◌≢◌, refl, true, false, some, List, [], ◌∷◌, arith, inr, text_ordered, text_eq_iff,
}
use traxos.Base.Int.{pos}
use traxos.Base.Bytes.{codes}
use traxos.OrdMap.{find, insert_or_assign}
use traxos.Pancy.Msgs.{Request, Response, RemoveRequest, remove_request, response_errcode}
use traxos.Pancy.Db.Spec.{view, written, step}
use traxos.Pancy.Db.Spec.Effects.{is_ok}
use traxos.Pancy.Db.Spec.Runs.{steps, steps-IsValid, answers}
use traxos.Pancy.Tests.{locked, locked-IsValid, lock_again, write}
use traxos.Replica.{Replica, handle, run, AllSentOn, handle-leader, run-leader, run-follower}
use traxos.Replica.Locks.{accepts, lock_excludes, late_unlock}

abbrev pub leader : Replica
leader = record { index = 1; nreplicas = 3; leader_index = 1; world = locked }

abbrev pub follower : Replica
follower = record { index = 0; nreplicas = 3; leader_index = 1; world = locked }

abbrev attempts : List Request
attempts = lock_again ∷ write ∷ lock_again ∷ []

-- An unlock by the version of a lock that was released before.
abbrev old_unlock : RemoveRequest
old_unlock = record { serial = 12291; key = codes "g7/lock"; version_match = pos 3 }

held : (view locked (codes "g7/lock")).version ≢ 3
unfolding find
held e = omega arith

abbrev after : Replica
after = record leader { world = steps attempts locked }

run-leader_example : run attempts leader ≡ some (answers attempts locked, after)
run-leader_example = run-leader attempts leader refl locked-IsValid (omega arith)

run-follower_example :
    (resps : List Response) × (run attempts follower ≡ some (resps, follower))
    × AllSentOn 1 attempts resps
run-follower_example = run-follower attempts follower (λ e. omega arith)

other_key : codes "g7/v001" ≢ codes "g7/lock"
other_key e = let eq : false ≡ true = (text_eq_iff (codes "g7/v001") (codes "g7/lock")).1 e in cc

lock_excludes_example : accepts (codes "g7/lock") attempts (answers attempts locked) ≤ 1
lock_excludes_example =
    lock_excludes leader attempts refl locked-IsValid (omega arith) (codes "g7/lock")
      (answers attempts locked) after (inr (refl, λ e. cc), (other_key, (inr (refl, λ e. cc), tt)))
      run-leader_example

after_attempts : (steps attempts locked).next_version ≡ 6
unfolding steps step written find insert_or_assign
after_attempts = refl

late_handled :
    handle (remove_request old_unlock) after
    ≡ some (
      (step (remove_request old_unlock) after.world).0,
      record after { world = (step (remove_request old_unlock) after.world).1 },
    )
late_handled =
    handle-leader (remove_request old_unlock) after refl
      (steps-IsValid attempts locked locked-IsValid) (omega (arith, after_attempts))

late_unlock_example :
    (is_ok (response_errcode (step (remove_request old_unlock) after.world).0) ≡ false)
    × (record after { world = (step (remove_request old_unlock) after.world).1 } ≡ after)
late_unlock_example =
    late_unlock leader attempts refl locked-IsValid (omega arith) old_unlock 3
      (answers attempts locked) (step (remove_request old_unlock) after.world).0 after
      (record after { world = (step (remove_request old_unlock) after.world).1 }) (omega arith)
      (omega arith) held refl run-leader_example late_handled
