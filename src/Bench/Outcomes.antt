-- ===== src/Bench/Outcomes.antt =====
-- bench/internal/loadgen/classify.go: what has happened to a request.
pub mod Contract
use doorbust.Base.{
  ℕ, String, Bool, true, false, ◌==◌, ◌||◌, leb, Option, none, some, List, [], ◌∷◌, str_eq,
  if◌then◌else◌,
}

pub data Outcome : Type 0 where
  reserved out_of_stock not_found unauthorized conflict_other server_error : Outcome
  timeout connect_error generator_saturated : Outcome

abbrev pub outcomes : List Outcome
outcomes =
    reserved ∷ out_of_stock ∷ not_found ∷ unauthorized ∷ conflict_other ∷ server_error ∷ timeout
    ∷ connect_error ∷ generator_saturated ∷ []

abbrev pub outcome_name : Outcome → String
outcome_name reserved = "reserved"
outcome_name out_of_stock = "out_of_stock"
outcome_name not_found = "not_found"
outcome_name unauthorized = "unauthorized"
outcome_name conflict_other = "conflict_other"
outcome_name server_error = "server_error"
outcome_name timeout = "timeout"
outcome_name connect_error = "connect_error"
outcome_name generator_saturated = "generator_saturated"

-- Whether the transport's error is a timeout.
abbrev pub classify_error : Bool → Outcome
classify_error true = timeout
classify_error false = connect_error

abbrev conflict_or_error : ℕ → Outcome
conflict_or_error status = if status == 409 then conflict_other else server_error

abbrev by_code : ℕ → Option String → Outcome
by_code status none = conflict_or_error status
by_code status (some code) =
    if str_eq code "out_of_stock"
    then out_of_stock
    else if str_eq code "not_found"
    then not_found
    else if str_eq code "unauthorized" || str_eq code "forbidden"
    then unauthorized
    else conflict_or_error status

-- The status, and the code that the JSON decoder finds in the body.
unfoldable pub classify_response : ℕ → Option String → Outcome
classify_response status code =
    if status == 201
    then reserved
    else if leb 500 status
    then server_error
    else if status == 401 || status == 403
    then unauthorized
    else if status == 404
    then not_found
    else by_code status code
