-- ===== src/Tracker/Connection/Laws.antt =====
-- What a request to the tracker changes, on every path and for every query.
use traxos.Base.{
  ℕ, ◌≡◌, ◌≢◌, ◌⊎◌, refl, Text, if◌then◌else◌, Option, [], ◌∷◌, text_eq, text_eq_iff, Ordered,
  arith, Bool-cases, inl, inr,
}
use traxos.Base.Bytes.{codes}
use traxos.Tracker.Types.{AnnounceRequest, TrackerState}
use traxos.Tracker.State.{apply_announce}
use traxos.Tracker.State.Laws.{IsValid, apply_announce-IsValid}
use traxos.Tracker.Http.Params.{fresh, parse_announce_request}
use traxos.Tracker.Http.Replies.{tracker_success_response}
use traxos.Tracker.Connection.{HttpRequest, with_address, answer_announce, handle_request}

-- The announce that a query stands for, and the failure of its parameters.
abbrev pub announce_of : Option ℕ → HttpRequest → AnnounceRequest
announce_of ip http = with_address ip (parse_announce_request http.params (fresh, [])).0

abbrev pub failure_of : HttpRequest → Text
failure_of http = (parse_announce_request http.params (fresh, [])).1

nil-cases : (t : Text) → (t ≡ []) ⊎ (t ≢ [])
nil-cases [] = inl refl
nil-cases (c ∷ cs) = inr (λ e. cc)

module _ ⦃o : Ordered Text⦄ where
  answer_failure :
      (state : TrackerState) (req : AnnounceRequest) (failure : Text)
      → failure ≢ []
      → answer_announce state (req, failure) ≡ (record { status_code = 200; body = failure }, state)
  unfolding answer_announce
  answer_failure state req [] h = absurd (h refl)
  answer_failure state req (c ∷ cs) h = refl

  -- An announce with an invalid parameter is answered by the failure, and changes nothing.
  pub announce_failure :
      (ip : Option ℕ) (state : TrackerState) (http : HttpRequest)
      → http.path ≡ codes "/announce"
      → failure_of http ≢ []
      → handle_request ip state http ≡ (record { status_code = 200; body = failure_of http }, state)
  unfolding handle_request
  announce_failure ip state http e h =
      let answer = answer_failure state (announce_of ip http) (failure_of http) h in
      ground (arith, text_eq_iff http.path (codes "/announce"))

  -- An announce with valid parameters is applied, and answered from the state after it.
  pub announce_success :
      (ip : Option ℕ) (state : TrackerState) (http : HttpRequest)
      → http.path ≡ codes "/announce"
      → failure_of http ≡ []
      → handle_request ip state http ≡ (
        record {
          status_code = 200;
          body =
              tracker_success_response
                (apply_announce state (announce_of ip http))
                (announce_of ip http);
        },
        apply_announce state (announce_of ip http),
      )
  unfolding handle_request answer_announce
  announce_success ip state http e h = ground (arith, text_eq_iff http.path (codes "/announce"))

  -- Any other path changes nothing, and gets the debug page or a 404.
  pub other_path :
      (ip : Option ℕ) (state : TrackerState) (http : HttpRequest)
      → http.path ≢ codes "/announce"
      → ((handle_request ip state http).1 ≡ state)
        × ((handle_request ip state http).0.status_code
            ≡ (if text_eq http.path (codes "/debug") then 200 else 404))
  unfolding handle_request
  other_path ip state http h =
      let not_announce = text_eq_iff http.path (codes "/announce") in (ground arith, ground arith)

  -- Every request, on every path and with every query, keeps the torrents, and the peers of each,
  -- in the order of their keys.
  pub handle_request-IsValid :
      (ip : Option ℕ) (state : TrackerState) (http : HttpRequest)
      → IsValid state
      → IsValid (handle_request ip state http).1
  handle_request-IsValid ip state http v =
      elim (Bool-cases (text_eq http.path (codes "/announce"))) [
        | inl e ↦
            let path = (text_eq_iff http.path (codes "/announce")).0 e in
            elim (nil-cases (failure_of http)) [
              | inl valid ↦
                  rw (announce_success ip state http path valid)
                    (apply_announce-IsValid state (announce_of ip http) v)
              | inr invalid ↦ rw (announce_failure ip state http path invalid) v
            ]
        | inr other ↦
            let path : http.path ≢ codes "/announce" =
              λ e. cc (other, (text_eq_iff http.path (codes "/announce")).1 e) in
            rw ((other_path ip state http path).0) v
      ]
