-- ===== src/Lockseq/System/Answered.antt =====
-- The answers of the database in the states that the clients reach, against `pancydb::process_req`.
use Prim.Native.Nat.{ℕ, ◌+◌, ◌^◌, ◌<◌, ◌≤◌}
use traxos.Base.{◌≡◌, arith, some}
use traxos.Pancy.Msgs.{Request}
use traxos.Pancy.Db.Process.{process_req}
use traxos.Pancy.Db.Process.Refine.{process_req-step}
use traxos.Pancy.Db.Spec.{step}
use traxos.Pancy.Db.Spec.Effects.{next_version-step}
use traxos.Lockseq.System.{System, Step, act, serve, redirect, Reach, start, later}
use traxos.Lockseq.System.Keeps.{Reach-Inv}

Step-version : (s t : System) → Step s t → t.world.next_version ≤ s.world.next_version + 1
Step-version s t (act i e c lt came moves) = omega arith
Step-version s t (serve r came) = (next_version-step r s.world).1
Step-version s t (redirect r leader came) = omega arith

Reach-version :
    (leaders : ℕ → ℕ) (n : ℕ) (s : System) → Reach leaders n s → s.world.next_version ≤ n + 1
Reach-version leaders k u start = omega arith
Reach-version leaders k u (later {n} {s} before last) =
    let one = Step-version s u last in let rest = Reach-version leaders n s before in omega arith

-- In any state that the clients, the database and the network reach from the start in fewer than
-- 2^51 steps, `process_req` returns for every request, with the answer and the database of the
-- specification: no pointer is read outside its object, and no version overflows.
pub Reach-process_req :
    (leaders : ℕ → ℕ) (n : ℕ) (s : System)
    → n < 2 ^ 51
    → Reach leaders n s
    → (r : Request) → process_req r s.world ≡ some (step r s.world)
Reach-process_req leaders n s few reached r =
    let inv = Reach-Inv leaders n s few reached in
    let low = Reach-version leaders n s reached in
    process_req-step r s.world inv.valid (omega arith)
