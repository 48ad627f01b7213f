-- ===== src/Lockseq/Keys.antt =====
-- pset4/lockseq_model.hh: the keys that the clients use.
use traxos.Base.{ℕ, ◌+◌, ◌/◌, ◌%◌, Text, [], ◌∷◌, ◌++◌, ltb, if◌then◌else◌}
use traxos.Base.Bytes.{codes, decimal}

abbrev pub make_client_key : ℕ → Text
make_client_key cid = codes "c" ++ decimal cid

abbrev pub make_group_key : ℕ → Text
make_group_key gid = codes "g" ++ decimal gid

abbrev pub make_lock_key : ℕ → Text
make_lock_key gid = make_group_key gid ++ codes "/lock"

-- `{:03}`: zeros in front of a number of less than three digits.
abbrev pub padded : ℕ → Text
padded n =
    if ltb n 1000 then (48 + n / 100) ∷ (48 + n / 10 % 10) ∷ (48 + n % 10) ∷ [] else decimal n

abbrev pub make_value_key : ℕ → ℕ → Text
make_value_key gid vid = make_group_key gid ++ (codes "/v" ++ padded vid)
