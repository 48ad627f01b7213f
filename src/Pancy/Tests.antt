-- ===== src/Pancy/Tests.antt =====
-- The database on concrete inputs: runs of the handlers, and the theorems at inputs that meet their
-- hypotheses.
use traxos.Base.{
  ◌≡◌, refl, ◌↔◌, true, false, ◌&&◌, if◌then◌else◌, none, some, List, [], ◌∷◌, arith, text_ordered,
}
use traxos.Base.Int.{pos}
use traxos.Base.Bytes.{codes, decimal}
use traxos.OrdMap.{same, find, insert_or_assign, erase}
use traxos.Pancy.Msgs.{Response}
use traxos.Pancy.Msgs.{
  any_version, ok, no_match, Request, put_request, cas_request, remove_request, RemoveRequest,
  cas_response, response_errcode, response_serial, request_serial,
}
use traxos.Pancy.Print.{format_request, format_response}
use traxos.Pancy.Db.{World, absent}
use traxos.Pancy.Db.Process.{process_req}
use traxos.Pancy.Db.Process.Refine.{process_req-step}
use mathlib.Core.Logic.{◌↔◌}
use traxos.Pancy.Db.Process.Accepts.{Admits, process_req-Admits}
use traxos.Pancy.Db.Process.Service.{
  process_req-IsValid, view-process_req, serial-process_req, process_req_refused,
}
use traxos.Pancy.Db.Spec.{view, written, removed, modified, step}
use traxos.Pancy.Db.Spec.Valid.{IsValid}
use traxos.Pancy.Db.Spec.Runs.{steps}
use traxos.Pancy.Db.Direct.{get, put, remove}
use traxos.Pancy.Db.Direct.Agree.{get-find, put-written, remove-removed}
use traxos.Pancy.Db.Diff.{diff}
use traxos.Pancy.Db.Diff.Exact.{diff_exact}
use traxos.Pancy.Db.Diff.Snapshot.{diff_snapshot}
use traxos.Pancy.Db.Spec.Effects.{outcome, is_ok}

-- A group that is locked, with one value, after one removal.
abbrev pub locked : World
locked = record {
  nonexistent_vv = absent;
  self = record {
    next_version = 5;
    db =
        (codes "g7/lock", record { value = codes "c3 0a1"; version = 4 })
        ∷ (codes "g7/v000", record { value = codes "c3 0a1"; version = 2 })
        ∷ [];
    recent_removes =
        record {
          key = codes "g7/v001";
          vv = record { value = codes "c2 fff"; version = 1 };
          remove_version = 3;
        }
        ∷ [];
  };
}

pub locked-IsValid : IsValid locked
locked-IsValid = record {
  static = refl;
  positive = omega arith;
  sorted = ((refl, tt), (tt, tt));
  versions = omega arith;
  removes = omega arith;
  few = omega arith;
}

abbrev pub lock_again : Request
lock_again = cas_request (record {
  serial = 4099;
  key = codes "g7/lock";
  expected = [];
  desired = codes "c5 bbb";
  version_match = any_version;
})

abbrev unlock : RemoveRequest
unlock = record { serial = 8195; key = codes "g7/lock"; version_match = pos 4 }

abbrev pub write : Request
write = put_request (record {
  serial = 8195;
  key = codes "g7/v001";
  value = codes "c3 0a1";
  version_match = any_version;
})

process_req-step_example : process_req lock_again locked ≡ some (step lock_again locked)
process_req-step_example = process_req-step lock_again locked locked-IsValid (omega arith)

process_req-Admits_example :
    (resp : Response) × (w' : World) × (process_req lock_again locked ≡ some (resp, w'))
    × ((response_errcode resp ≡ ok) ↔ Admits locked lock_again)
process_req-Admits_example = process_req-Admits lock_again locked locked-IsValid (omega arith)

written_version :
    ((step write locked).1.next_version ≡ 6) × (response_errcode (step write locked).0 ≡ ok)
unfolding step find insert_or_assign response_errcode
written_version = (refl, refl)

excluded :
    step lock_again locked ≡ (cas_response (modified 4099 no_match (codes "c3 0a1") 4 4), locked)
unfolding step find
excluded = refl

write_done : process_req write locked ≡ some (step write locked)
write_done = process_req-step write locked locked-IsValid (omega arith)

process_req-IsValid_example : IsValid (step write locked).1
process_req-IsValid_example =
    process_req-IsValid write locked (step write locked).1 (step write locked).0 locked-IsValid
      (omega arith) write_done

view-process_req_example : view (step write locked).1 (codes "g7/v001") ≡ (
    if is_ok (response_errcode (step write locked).0) && same (codes "g7/v001") (codes "g7/v001")
    then outcome write 5 (view locked (codes "g7/v001"))
    else view locked (codes "g7/v001"))
view-process_req_example =
    view-process_req write locked (step write locked).1 (step write locked).0 locked-IsValid
      (omega arith) write_done (codes "g7/v001")

serial-process_req_example : response_serial (step lock_again locked).0 ≡ request_serial lock_again
serial-process_req_example =
    serial-process_req lock_again locked (step lock_again locked).1 (step lock_again locked).0
      locked-IsValid (omega arith) process_req-step_example

was_refused : is_ok (response_errcode (step lock_again locked).0) ≡ false
unfolding step find response_errcode
was_refused = refl

process_req_refused_example : (step lock_again locked).1 ≡ locked
process_req_refused_example =
    process_req_refused lock_again locked (step lock_again locked).1 (step lock_again locked).0
      locked-IsValid (omega arith) process_req-step_example was_refused

get-find_example : get (codes "g7/lock") locked ≡ some (find (codes "g7/lock") locked.db, locked)
get-find_example = get-find (codes "g7/lock") locked locked-IsValid

put-written_example :
    put (codes "k") (codes "v") locked ≡ some (tt, written (codes "k") (codes "v") locked)
put-written_example = put-written (codes "k") (codes "v") locked (omega arith)

abbrev program : List Request
program = write ∷ remove_request unlock ∷ []

after_program : (steps program locked).next_version ≡ 7
unfolding steps step find insert_or_assign erase
after_program = refl

diff_snapshot_example : diff (steps program locked).self locked.self 2 ≡ none
diff_snapshot_example =
    diff_snapshot program locked 2 locked-IsValid (omega (arith, after_program)) (omega arith)
      (omega (arith, after_program))

diff_exact_example : (diff locked.self locked.self 0 ≡ none) ↔ (locked.db ≡ locked.db)
diff_exact_example =
    diff_exact locked locked locked-IsValid locked-IsValid (omega arith) (omega arith)

remove-removed_example : remove (codes "g7/lock") locked ≡ elim (find (codes "g7/lock") locked.db) [
  | none ↦ some (false, locked)
  | some old ↦ some (true, removed (codes "g7/lock") old locked)
]
remove-removed_example = remove-removed (codes "g7/lock") locked (omega arith)

printed_request : format_request lock_again ≡ codes "CAS(#4099, \"g7/lock\", \"\", \"c5 bbb\")"
unfolding format_request decimal
printed_request = refl

printed_unlock : format_request (remove_request unlock) ≡ codes "REMOVE(#8195, \"g7/lock\", VM4)"
unfolding format_request decimal
printed_unlock = refl

printed_refusal :
    format_response (step lock_again locked).0 ≡ codes "CAS_A(#4099, ENOMATCH, \"c3 0a1\", V4)"
unfolding format_response decimal step find
printed_refusal = refl
