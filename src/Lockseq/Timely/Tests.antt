-- ===== src/Lockseq/Timely/Tests.antt =====
-- A client that has its lock and has asked for its first value.
use traxos.Base.{ℕ, ◌≡◌, inl, refl, none, some, [], ◌∷◌, ◌++◌, arith}
use traxos.Base.Bytes.{codes}
use traxos.Pancy.Msgs.{cas_request, put_request, response_serial}
use traxos.OrdMap.{find}
use traxos.Pancy.Db.Spec.{step}
use traxos.Lockseq.{check}
use traxos.Lockseq.Client.{
  Cstate, fresh, begin, answer, begin_round, write_phase, next_request, request_at, request_of,
  advance, start_at,
}
use traxos.Lockseq.Client.Turns.{lock_of, put_of}
use traxos.Lockseq.System.{started, sent, update}
use traxos.Lockseq.Timely.{Timely, TimelyStep, act, serve, start, later}
use traxos.Lockseq.Timely.Safety.{TimelyReach-check}

abbrev leaders : ℕ → ℕ
leaders i = 1

abbrev beginning : Timely
beginning = record { system = started leaders; mail = λ i. none }

abbrev asking : Cstate
asking = begin_round 7 (codes "0a1b2c3") 2 (fresh 3 1)

abbrev asked : Timely
asked = record {
  system = record (started leaders) {
    clients = update (started leaders).clients 3 asking;
    requests = sent (request_of asking) ++ [];
  };
  mail = update (λ i. none) 3 none;
}

asks : TimelyStep beginning asked
unfolding advance start_at
asks =
    act 3 (begin 7 (codes "0a1b2c3") 2) asking (omega arith)
      (omega arith, refl, omega arith, omega arith) tt tt refl

abbrev locked : Timely
locked = record {
  system = record (asked.system) {
    world = (step (cas_request (lock_of asking)) asked.system.world).1;
    responses = (step (cas_request (lock_of asking)) asked.system.world).0 ∷ [];
  };
  mail = update asked.mail 3 (some (step (cas_request (lock_of asking)) asked.system.world).0);
}

locks : TimelyStep asked locked
unfolding begin_round next_request request_at
locks = serve 3 (cas_request (lock_of asking)) (omega arith) refl (inl refl) refl

abbrev writes : Cstate
writes = write_phase 1 asking

abbrev writing_first : Timely
writing_first = record {
  system = record (locked.system) {
    clients = update locked.system.clients 3 writes;
    requests = sent (request_of writes) ++ locked.system.requests;
  };
  mail = update locked.mail 3 none;
}

told : TimelyStep locked writing_first
unfolding begin_round next_request request_at advance step response_serial write_phase find
told =
    act 3 (answer (step (cas_request (lock_of asking)) asked.system.world).0 0) writes (omega arith)
      tt refl (inl refl) refl

abbrev first_written : Timely
first_written = record {
  system = record (writing_first.system) {
    world = (step (put_request (put_of writes)) writing_first.system.world).1;
    responses =
        (step (put_request (put_of writes)) writing_first.system.world).0
        ∷ writing_first.system.responses;
  };
  mail =
      update writing_first.mail 3
        (some (step (put_request (put_of writes)) writing_first.system.world).0);
}

puts : TimelyStep writing_first first_written
unfolding begin_round next_request request_at write_phase
puts = serve 3 (put_request (put_of writes)) (omega arith) refl (inl refl) refl

-- The database has the lock and the first value.
TimelyReach-check_example : check first_written.system.world.self ≡ none
TimelyReach-check_example =
    TimelyReach-check leaders 4 first_written (omega arith)
      (later (later (later (later start asks) locks) told) puts)
