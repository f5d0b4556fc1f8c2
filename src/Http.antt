-- ===== src/Http.antt =====
-- HTTP as the `http`, `hyper` and `warp` crates carry it: requests, responses and the service that
-- answers. Names of headers are in lower case, and every string is the list of its bytes.
use cashweb_backends.Common.{ℕ, List, [], ◌∷◌, Option, if◌then◌else◌, not, ◌==◌}
use cashweb_backends.Common.Exec.{Outcome}

pub data Method : Type 0 where
  method_get method_put : Method

pub record Request (Uri : Type 0) : Type 0 where
  pub method : Method
  pub uri : Uri
  pub authorization : Option (List ℕ)
  pub body : List ℕ

-- A response that comes in: its body may fail while it is read.
pub record Incoming (BodyError : Type 0) : Type 0 where
  pub status : ℕ
  pub headers : List (List ℕ × List ℕ)
  pub body : Outcome BodyError (List ℕ)

-- The client's service.
pub record Service (Uri : Type 0) : Type 1 where
  pub ServiceError : Type 0
  pub BodyError : Type 0
  pub call : Request Uri → Outcome ServiceError (Incoming BodyError)

-- A response that goes out.
pub record Response : Type 0 where
  pub status : ℕ
  pub headers : List (List ℕ × List ℕ)
  pub body : List ℕ

-- "authorization"
abbrev pub authorization_name : List ℕ
authorization_name = 97 ∷ 117 ∷ 116 ∷ 104 ∷ 111 ∷ 114 ∷ 105 ∷ 122 ∷ 97 ∷ 116 ∷ 105 ∷ 111 ∷ 110 ∷ []

-- "location"
abbrev pub location_name : List ℕ
location_name = 108 ∷ 111 ∷ 99 ∷ 97 ∷ 116 ∷ 105 ∷ 111 ∷ 110 ∷ []

abbrev pub with_body : ℕ → List ℕ → Response
with_body status body = record { status = status; headers = []; body = body }

-- `ToResponse::to_response` of both servers: the text of an error is sent unless the status is 500.
unfoldable pub to_response : {E : Type 0} → (E → ℕ) → (E → List ℕ) → E → Response
to_response to_status to_string e =
    if not (to_status e == 500)
    then with_body (to_status e) (to_string e)
    else with_body (to_status e) []
