-- ===== src/ApStations/Session.antt =====
-- scripts/ap-stations.py: the calls of the router, the session that they carry, and the loop of `main`.
-- `post` stands for the router behind `urllib`: it takes a request and returns the JSON of the answer, or
-- `none` where there is no such answer.
use Prim.Native.String.{String}
use text.Mathlib.Text.{◌==◌ as str_eq}
use esphome_snapcast.Base.{
  ℕ, zero, suc, Bool, true, false, Option, none, some, List, [], ◌∷◌, if◌then◌else◌,
}
use esphome_snapcast.Base.Int.{pos, eqb_ℤ}
use esphome_snapcast.ApStations.Json.{
  Json, boolean, number, string, array, object, Items, nil, item, Fields, done, field, truthy, get,
}
use esphome_snapcast.ApStations.Topology.{Station, stations}

-- What a call returns or raises: the script tells a `RuntimeError` from the other exceptions.
pub data Outcome : Type 0 where
  ok : Json → Outcome
  runtime_error : Outcome
  other_error : Outcome

-- "params"
pub record Request : Type 0 where
  pub session : Json
  pub obj : String
  pub func : String
  pub args : Json

abbrev pub null_session : Json
null_session = string "00000000000000000000000000000000"

-- `key in fs`
unfoldable pub has_key : String → Fields → Bool
has_key key done = false
has_key key (field k v fs) = let rest = has_key key fs in if str_eq key k then true else rest

-- `code == 0`: False is 0 in Python
abbrev pub is_zero : Json → Bool
is_zero (number n) = eqb_ℤ n (pos 0)
is_zero (boolean true) = false
is_zero (boolean false) = true
is_zero code = false

-- `result[1] if len(result) > 1 else {}`
abbrev pub second : Items → Json
second nil = object done
second (item j js) = j

abbrev pub result_of : Json → Outcome
result_of (array nil) = other_error
result_of (array (item code rest)) = if is_zero code then ok (second rest) else runtime_error
result_of result = ok result

-- What `ubus` makes of the body of an answer.
abbrev pub answer : Json → Outcome
answer (object body) = if has_key "error" body then runtime_error else result_of (get "result" body)
answer body = other_error

abbrev pub answered : Option Json → Outcome
answered none = other_error
answered (some body) = answer body

-- `login` behind its call
abbrev pub token_of : Outcome → Outcome
token_of (ok (object res)) =
    let token = get "ubus_rpc_session" res in if truthy token then ok token else runtime_error
token_of (ok res) = other_error
token_of runtime_error = runtime_error
token_of other_error = other_error

pub data Round : Type 0 where
  shown : List Station → Round
  failed : Round

abbrev pub rows_shown : Option (List Station) → Round
rows_shown none = failed
rows_shown (some rows) = shown rows

-- What `report` gets; what it prints is left out, and that it may raise on a topology without radios.
abbrev pub round_of : Outcome → Round
round_of (ok topo) = rows_shown (stations topo)
round_of runtime_error = failed
round_of other_error = failed

module _ {W : Type 0} (post : W → Request → Option Json × W) where
  unfoldable pub ubus : W → Request → Outcome × W
  ubus w request = let r = post w request in (answered r.0, r.1)

  abbrev pub login_request : String → String → Request
  login_request username password = record {
    session = null_session;
    obj = "session";
    func = "login";
    args = object (field "username" (string username) (field "password" (string password) done));
  }

  unfoldable pub login : String → String → W → Outcome × W
  login username password w =
      let r = ubus w (login_request username password) in (token_of r.0, r.1)

  -- One of the calls without arguments.
  abbrev pub call_request : String → String → Json → Request
  call_request obj func session = record {
    session = session;
    obj = obj;
    func = func;
    args = object done;
  }

  -- The call with the new session, if there is one; the session that is kept stands beside the outcome.
  abbrev pub again : String → String → Json → Outcome × W → Outcome × Json × W
  again obj func session (ok token, w) =
      let r = ubus w (call_request obj func token) in (r.0, token, r.1)
  again obj func session (runtime_error, w) = (runtime_error, session, w)
  again obj func session (other_error, w) = (other_error, session, w)

  abbrev pub or_again : String → String → String → String → Json → Outcome × W → Outcome × Json × W
  or_again username password obj func session (runtime_error, w) =
      again obj func session (login username password w)
  or_again username password obj func session (ok res, w) = (ok res, session, w)
  or_again username password obj func session (other_error, w) = (other_error, session, w)

  -- A call, with one more behind a new login if the session does not serve.
  unfoldable pub fetch : String → String → String → String → Json → W → Outcome × Json × W
  fetch username password obj func session w =
      or_again username password obj func session (ubus w (call_request obj func session))

  -- `count` rounds of the loop, or one without `--watch`.
  unfoldable pub watch_rounds : Bool → String → String → ℕ → Json → W → List Round
  watch_rounds watch username password zero session w = []
  watch_rounds watch username password (suc count) session w =
      let r = fetch username password "data_repo.webinfo" "get_topology" session w in
      let later = watch_rounds watch username password count r.1 r.2 in
      round_of r.0 ∷ (if watch then later else [])
