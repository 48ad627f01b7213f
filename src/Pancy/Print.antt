-- ===== src/Pancy/Print.antt =====
-- The text of a message in the logs: the formatters of pset4/pancy_msgs.hh, in UTF-8.
use traxos.Base.{ℕ, Text, Bool, true, false, [], ◌∷◌, ◌++◌, ◌==◌, if◌then◌else◌}
use traxos.Base.Int.{ℤ, pos, negsuc}
use traxos.Base.Bytes.{codes, decimal}
use traxos.Pancy.Msgs.{
  Errc, ok, not_found, no_match, redirect, Request, get_request, put_request, cas_request,
  remove_request, Response, redirection_response, get_response, put_response, cas_response,
  remove_response, ModResponse,
}

-- "✓" is three bytes.
format_errc : Errc → Text
format_errc ok = 0xe2 ∷ 0x9c ∷ 0x93 ∷ []
format_errc not_found = codes "ENOTFOUND"
format_errc no_match = codes "ENOMATCH"
format_errc redirect = codes "EREDIRECT"

-- `version_match_formatter`
format_version_match : ℤ → Text
format_version_match (pos n) = codes ", VM" ++ decimal n
format_version_match (negsuc n) = []

quoted : Text → Text
quoted s = codes "\"" ++ (s ++ codes "\"")

-- `V{}` of a version
versioned : ℕ → Text
versioned n = codes ", V" ++ decimal n

unfoldable pub is_no_match : Errc → Bool
is_no_match no_match = true
is_no_match e = false

-- `modification_formatter`; "→" is three bytes.
format_modification : ModResponse → Text
unfolding format_errc quoted versioned is_no_match
format_modification resp =
    if is_no_match resp.errcode
    then format_errc resp.errcode
      ++ (codes ", " ++ (quoted resp.actual ++ versioned resp.previous_version))
    else if resp.previous_version == resp.version
    then format_errc resp.errcode ++ versioned resp.previous_version
    else format_errc resp.errcode
      ++ (versioned resp.previous_version ++ (0xe2 ∷ 0x86 ∷ 0x92 ∷ decimal resp.version))

-- `NAME(#{}, `, and what follows it up to `)`.
call : Text → ℕ → Text → Text
call name serial arguments =
    name ++ (codes "(#" ++ (decimal serial ++ (codes ", " ++ (arguments ++ codes ")"))))

unfoldable pub format_request : Request → Text
unfolding call quoted format_version_match
format_request (get_request m) = call (codes "GET") m.serial (quoted m.key)
format_request (put_request m) =
    call (codes "PUT") m.serial
      (quoted m.key ++ (codes ", " ++ (quoted m.value ++ format_version_match m.version_match)))
format_request (cas_request m) = call (codes "CAS") m.serial (
    quoted m.key
    ++ (codes ", "
        ++ (quoted m.expected
            ++ (codes ", " ++ (quoted m.desired ++ format_version_match m.version_match)))))
format_request (remove_request m) =
    call (codes "REMOVE") m.serial (quoted m.key ++ format_version_match m.version_match)

-- "↪" is three bytes.
unfoldable pub format_response : Response → Text
unfolding call quoted versioned format_errc format_modification
format_response (get_response m) =
    call (codes "GET_A") m.serial
      (format_errc m.errcode ++ (codes ", " ++ (quoted m.value ++ versioned m.version)))
format_response (put_response m) = call (codes "PUT_A") m.serial (format_modification m)
format_response (cas_response m) = call (codes "CAS_A") m.serial (format_modification m)
format_response (remove_response m) = call (codes "REMOVE_A") m.serial (format_modification m)
format_response (redirection_response m) =
    call (codes "REDIRECTION") m.serial (0xe2 ∷ 0x86 ∷ 0xaa ∷ decimal m.redirection)
