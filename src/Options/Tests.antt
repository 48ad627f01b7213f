-- ===== src/Options/Tests.antt =====
-- The short options of pset4/pt-paxos.cc.
use traxos.Base.{◌≡◌, refl}
use traxos.Base.Bytes.{codes}
use traxos.Options.{short_options_for, options, is_alpha, colons}

shortopts : short_options_for options ≡ codes "n:S:R:l:Vpq"
unfolding short_options_for is_alpha colons
shortopts = refl
