-- ===== src/Lockseq/Tests.antt =====
-- `check` and `parse_digits` on concrete inputs.
use traxos.Base.{◌+◌, ◌≡◌, refl, none, some, [], ◌∷◌, ◌++◌, arith, length}
use traxos.Base.Bytes.{codes, decimal}
use traxos.Pancy.Db.{PancyDb}
use traxos.Pancy.Tests.{locked}
use traxos.Lockseq.{char_at, parse_digits, digits_loop, check, check_loop}
use traxos.Lockseq.Digits.{parse_digits-decimal}
use traxos.Lockseq.Check.{AllNamed, check-AllNamed}

parse_digits-decimal_example :
    parse_digits (codes "g" ++ (decimal 7 ++ codes "/v001")) 1 (1 + length (decimal 7)) ≡ 7
parse_digits-decimal_example = parse_digits-decimal (codes "g") 7 (codes "/v001") (omega arith)

locked_checked : check locked.self ≡ none
unfolding check check_loop parse_digits digits_loop char_at
locked_checked = refl

check-AllNamed_example : AllNamed locked.db
check-AllNamed_example = check-AllNamed locked.self locked_checked

-- Two values of an unlocked group that differ.
abbrev torn : PancyDb
torn = record {
  next_version = 3;
  db =
      (codes "g7/v000", record { value = codes "c3 0a1"; version = 1 })
      ∷ (codes "g7/v001", record { value = codes "c5 fff"; version = 2 })
      ∷ [];
  recent_removes = [];
}

torn_found : check torn ≡ some (codes "g7/v001")
unfolding check check_loop parse_digits digits_loop char_at
torn_found = refl

-- The overflow test of `parse_digits` lets some numbers of more than 32 bits pass.
overflow_missed : parse_digits (codes "6000000000") 0 10 ≡ 1705032704
unfolding parse_digits digits_loop
overflow_missed = refl
