-- ===== src/Tracker/Http/Params/Failure.antt =====
-- The failures that `parse_announce_request` notes.
use traxos.Base.{
  ◌-◌, ◌^◌, ◌≢◌, Text, Bool, true, false, if◌then◌else◌, Option, none, some, List, [], ◌∷◌, text_eq,
}
use traxos.Base.Bytes.{codes}
use traxos.Tracker.Types.{AnnounceRequest}
use traxos.Tracker.Http.Ipv4.{parse_number, parse_int32, parse_ipv4}
use traxos.Tracker.Http.Params.{
  Parsed, copy_exact, parse_event, set_field, parse_param, parse_announce_request,
}

record Failed (parsed : Parsed) : Type 0 where
  noted : parsed.1 ≢ []

set_field-Failed :
    {A : Type 0} (o : Option A) (set : A → AnnounceRequest) (failure : Text) (parsed : Parsed)
    → failure ≢ []
    → parsed.1 ≢ []
    → Failed (set_field o set failure parsed)
unfolding set_field
set_field-Failed none set failure (req, noted) f h = record { noted = f }
set_field-Failed (some a) set failure (req, noted) f h = record { noted = h }

if-Failed : (b : Bool) (x y : Parsed) → Failed x → Failed y → Failed (if b then x else y)
if-Failed true x y hx hy = hx
if-Failed false x y hx hy = hy

parse_param-Failed :
    (name value : Text) (parsed : Parsed) → parsed.1 ≢ [] → Failed (parse_param name value parsed)
unfolding parse_param
parse_param-Failed name value (req, failure) h =
    if-Failed (text_eq name (codes "info_hash")) _ _
      (set (copy_exact value) (λ v. record req { info_hash = v }) (codes "invalid info_hash")
        (λ e. cc))
      (if-Failed (text_eq name (codes "peer_id")) _ _
        (set (copy_exact value) (λ v. record req { peer_id = v }) (codes "invalid peer_id")
          (λ e. cc))
        (if-Failed (text_eq name (codes "ip")) _ _
          (set (parse_ipv4 value) (λ v. record req { ip = v }) (codes "invalid ip") (λ e. cc))
          (if-Failed (text_eq name (codes "port")) _ _
            (set (parse_number (2 ^ 16 - 1) value) (λ v. record req { port = v })
              (codes "invalid port") (λ e. cc))
            (if-Failed (text_eq name (codes "uploaded")) _ _
              (set (parse_number (2 ^ 64 - 1) value) (λ v. record req { uploaded = v })
                (codes "invalid uploaded") (λ e. cc))
              (if-Failed (text_eq name (codes "downloaded")) _ _
                (set (parse_number (2 ^ 64 - 1) value) (λ v. record req { downloaded = v })
                  (codes "invalid downloaded") (λ e. cc))
                (if-Failed (text_eq name (codes "left")) _ _
                  (set (parse_number (2 ^ 64 - 1) value) (λ v. record req { left = v })
                    (codes "invalid left") (λ e. cc))
                  (if-Failed (text_eq name (codes "event")) _ _
                    (set (parse_event value) (λ v. record req { event = v }) (codes "invalid event")
                      (λ e. cc))
                    (if-Failed (text_eq name (codes "numwant")) _ (req, failure)
                      (set (parse_int32 value) (λ v. record req { numwant = v })
                        (codes "invalid numwant") (λ e. cc))
                      (record { noted = h })))))))))
  where
    set :
        {A : Type 0} (o : Option A) (f : A → AnnounceRequest) (failed : Text)
        → failed ≢ []
        → Failed (set_field o f failed (req, failure))
    set o f failed nonempty = set_field-Failed o f failed (req, failure) nonempty h

-- Once a failure is noted, the parameters that are read after it leave a failure noted.
pub parse_announce_request-ne-nil :
    (params : List (Text × Text)) (parsed : Parsed)
    → parsed.1 ≢ []
    → (parse_announce_request params parsed).1 ≢ []
unfolding parse_announce_request
parse_announce_request-ne-nil [] parsed h = h
parse_announce_request-ne-nil ((name, value) ∷ params) parsed h =
    parse_announce_request-ne-nil params (parse_param name value parsed)
      (parse_param-Failed name value parsed h).noted
