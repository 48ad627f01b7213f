-- ===== src/Tracker/Connection/Server/Requests.antt =====
-- The requests that the connections of pset4/tracker.cc bring, by the number of the connection.
use traxos.Base.{
  ℕ, zero, suc, ◌+◌, ◌==◌, ◌≡◌, inl, inr, refl, ◌∙◌, ap, Bool, true, false, if◌then◌else◌, Option,
  none, some, List, [], ◌∷◌, ◌++◌, length, length-append, arith, Bool-cases,
}
use traxos.Tracker.Connection.{HttpRequest}
use traxos.Tracker.Connection.Server.{
  Connections, Happening, accept, receive, connection, close, after_round,
}

-- Of each connection, by its number in the order of acceptance: its peer's address while it is open.
abbrev pub Live : Type 0
Live = ℕ → Option (Option ℕ)

abbrev pub none_live : Live
none_live i = none

abbrev pub becomes : ℕ → Option (Option ℕ) → Live → Live
becomes j c live i = if i == j then c else live i

-- The requests on open connections, each with its connection's address, where `count` connections
-- were accepted before. A connection ends by a request that is not read, or is not kept alive.
abbrev pub requests : List Happening → ℕ → Live → List (Option ℕ × HttpRequest)
requests [] count live = []
requests (accept ip ∷ hs) count live = requests hs (count + 1) (becomes count (some ip) live)
requests (receive i none keep_alive ∷ hs) count live = requests hs count (becomes i none live)
requests (receive i (some http) keep_alive ∷ hs) count live =
    let kept = requests hs count live in
    let ended = requests hs count (becomes i none live) in
    elim (live i) [ none ↦ kept | some ip ↦ (ip, http) ∷ (if keep_alive then kept else ended) ]

-- The loops of the code against the connections by their numbers.
pub record Agrees (cs : Connections) (count : ℕ) (live : Live) : Type 0 where
  pub counted : length cs ≡ count
  pub each : (i : ℕ) → connection i cs ≡ live i

connection-append :
    (i : ℕ) (cs : Connections) (c : Option (Option ℕ))
    → connection i (cs ++ (c ∷ [])) ≡ (if i == length cs then c else connection i cs)
unfolding connection
connection-append zero [] c = ground arith
connection-append (suc i) [] c = ground arith
connection-append zero (x ∷ cs) c = ground arith
connection-append (suc i) (x ∷ cs) c = ground (arith, connection-append i cs c)

connection-close :
    (i j : ℕ) (cs : Connections)
    → connection i (close j cs) ≡ (if i == j then none else connection i cs)
unfolding connection close
connection-close i j [] = ground arith
connection-close zero zero (x ∷ cs) = ground arith
connection-close (suc i) zero (x ∷ cs) = ground arith
connection-close zero (suc j) (x ∷ cs) = ground arith
connection-close (suc i) (suc j) (x ∷ cs) = ground (arith, connection-close i j cs)

length-close : (j : ℕ) (cs : Connections) → length (close j cs) ≡ length cs
unfolding close
length-close j [] = refl
length-close zero (x ∷ cs) = refl
length-close (suc j) (x ∷ cs) = ap suc (length-close j cs)

pub accept-Agrees :
    (ip : Option ℕ) (cs : Connections) (count : ℕ) (live : Live)
    → Agrees cs count live
    → Agrees (cs ++ (some ip ∷ [])) (count + 1) (becomes count (some ip) live)
accept-Agrees ip cs count live a = record {
  counted = omega (arith, length-append cs (some ip ∷ []), a.counted);
  each = λ i. ground (arith, connection-append i cs (some ip), a.counted, a.each i);
}

pub close-Agrees :
    (j : ℕ) (cs : Connections) (count : ℕ) (live : Live)
    → Agrees cs count live
    → Agrees (close j cs) count (becomes j none live)
close-Agrees j cs count live a = record {
  counted = length-close j cs ∙ a.counted;
  each = λ i. ground (arith, connection-close i j cs, a.each i);
}

pub gone-Agrees :
    (j : ℕ) (cs : Connections) (count : ℕ) (live : Live)
    → connection j cs ≡ none
    → Agrees cs count live
    → Agrees cs count (becomes j none live)
gone-Agrees j cs count live gone a = record {
  counted = a.counted;
  each = λ i. elim (Bool-cases (i == j)) [
    | inl here ↦ let eq : i ≡ j = ground arith in ground (arith, ap (λ k. connection k cs) eq)
    | inr other ↦ ground (arith, a.each i)
  ];
}

-- After a request that is read.
pub round-Agrees :
    (j : ℕ) (keep_alive : Bool) (cs : Connections) (count : ℕ) (live : Live)
    → Agrees cs count live
    → Agrees (after_round j keep_alive cs) count (if keep_alive then live else becomes j none live)
round-Agrees j true cs count live a = a
round-Agrees j false cs count live a = close-Agrees j cs count live a

pub requests_gone :
    (i : ℕ) (http : HttpRequest) (keep_alive : Bool) (hs : List Happening) (count : ℕ) (live : Live)
    → live i ≡ none
    → requests (receive i (some http) keep_alive ∷ hs) count live ≡ requests hs count live
requests_gone i http keep_alive hs count live e = ground (arith, e)

pub requests_read :
    (i : ℕ) (http : HttpRequest) (keep_alive : Bool) (hs : List Happening) (count : ℕ) (live : Live)
    (ip : Option ℕ)
    → live i ≡ some ip
    → requests (receive i (some http) keep_alive ∷ hs) count live
      ≡ (ip, http) ∷ requests hs count (if keep_alive then live else becomes i none live)
requests_read i http true hs count live ip e = ground (arith, e)
requests_read i http false hs count live ip e = ground (arith, e)
