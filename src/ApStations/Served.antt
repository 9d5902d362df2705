-- ===== src/ApStations/Served.antt =====
-- scripts/ap-stations.py: the loop over a router whose sessions end.
use Prim.Native.String.{String}
use mathlib.Core.Path.{subst}
use esphome_snapcast.Base.{
  ℕ, zero, suc, ◌≡◌, ◌⊎◌, refl, sym, ◌∙◌, ap, inl, inr, true, false, arith, Option, some, List, [],
  ◌∷◌, length,
}
use esphome_snapcast.Base.Int.{pos, eqb_ℤ}
use esphome_snapcast.ApStations.Json.{
  Json, number, string, array, object, Items, nil, item, done, field, truthy, get_or,
}
use esphome_snapcast.ApStations.Topology.{Station, stations}
use esphome_snapcast.ApStations.Session.{
  Outcome, ok, runtime_error, Request, has_key, answered, token_of, rows_shown, Round, shown,
  failed, round_of, ubus, login_request, login, call_request, again, or_again, fetch, watch_rounds,
}

-- An answer of JSON-RPC with a status and what stands behind it.
abbrev pub reply : ℕ → Items → Json
reply status rest = object (
    field "jsonrpc" (string "2.0")
      (field "id" (string "1") (field "result" (array (item (number (pos status)) rest)) done)))

abbrev pub granted : Json → Json
granted token = reply 0 (item (object (field "ubus_rpc_session" token done)) nil)

abbrev pub topology_request : {W : Type 0} → (W → Request → Option Json × W) → Json → Request
topology_request post = call_request post "data_repo.webinfo" "get_topology"

-- The router answers a call of `get_topology` with a topology that has rows.
abbrev pub IsServed : {W : Type 0} → (W → Request → Option Json × W) → W → Json → Type 0
IsServed post w session =
    (topo : Json) × (rows : List Station) × (stations topo ≡ some rows)
    × ((post w (topology_request post session)).0 ≡ some (reply 0 (item topo nil)))

-- A router that grants a session for each login. It serves a session or says by a status other than 0
-- that it does not; `Serves` tells some of the sessions that it serves, and it serves one just granted.
pub record IsRouter {W : Type 0} (post : W → Request → Option Json × W) (username password : String)
    (Serves : W → Json → Type 0) : Type 0 where
  pub grants :
      (w : W)
      → (token : Json) × (truthy token ≡ true)
        × ((post w (login_request post username password)).0 ≡ some (granted token))
        × Serves (post w (login_request post username password)).1 token
  pub serves : (w : W) (session : Json) → Serves w session → IsServed post w session
  pub refuses :
      (w : W) (session : Json)
      → IsServed post w session
        ⊎ ((status : ℕ) × ((post w (topology_request post session)).0
              ≡ some (reply (suc status) nil)))

status_refused : (status : ℕ) → answered (some (reply (suc status) nil)) ≡ runtime_error
unfolding has_key get_or
status_refused status = let e : eqb_ℤ (pos (suc status)) (pos 0) ≡ false = ground arith in rw e refl

module _ {W : Type 0} (post : W → Request → Option Json × W) (username password : String)
    (Serves : W → Json → Type 0) where
  -- The call returns a topology that has rows.
  abbrev IsFetched : Outcome → Type 0
  IsFetched o = (topo : Json) × (rows : List Station) × (stations topo ≡ some rows) × (o ≡ ok topo)

  ubus-served :
      (w : W) (session : Json)
      → IsServed post w session
      → (topo : Json) × (rows : List Station) × (stations topo ≡ some rows)
        × ((ubus post w (topology_request post session)).0 ≡ ok topo)
  unfolding ubus has_key get_or
  ubus-served w session (topo, rows, e, served) = (topo, rows, e, ap answered served)

  ubus-refused :
      (w : W) (session : Json) (status : ℕ)
      → (post w (topology_request post session)).0 ≡ some (reply (suc status) nil)
      → (ubus post w (topology_request post session)).0 ≡ runtime_error
  unfolding ubus has_key get_or
  ubus-refused w session status refused = ap answered refused ∙ status_refused status

  login-granted :
      (w : W) (token : Json)
      → truthy token ≡ true
      → (post w (login_request post username password)).0 ≡ some (granted token)
      → (login post username password w).0 ≡ ok token
  unfolding login ubus has_key get_or
  login-granted w token filled granted_it =
      ap (λ o. token_of (answered o)) granted_it ∙ rw filled refl

  again-IsFetched :
      IsRouter post username password Serves
      → (session token : Json) (r : Outcome × W) → r.0 ≡ ok token
      → Serves r.1 token
      → IsFetched (again post "data_repo.webinfo" "get_topology" session r).0
  again-IsFetched router session token (o, w) e serves =
      let (topo, rows, listed, fetched) = ubus-served w token (router.serves w token serves) in
      (
        topo,
        rows,
        listed,
        ap (λ o. (again post "data_repo.webinfo" "get_topology" session (o, w)).0) e ∙ fetched,
      )

  login-IsFetched :
      IsRouter post username password Serves
      → (session : Json) (w : W)
      → IsFetched
          (again post "data_repo.webinfo" "get_topology" session (login post username password w)).0
  login-IsFetched router session w =
      let (token, filled, granted_it, serves) = router.grants w in
      again-IsFetched router session token (login post username password w)
        (login-granted w token filled granted_it) (unfold login ubus in serves)

  or_again-IsFetched :
      IsRouter post username password Serves
      → (session : Json) (r : Outcome × W) → (IsFetched r.0 ⊎ (r.0 ≡ runtime_error))
      → IsFetched (or_again post username password "data_repo.webinfo" "get_topology" session r).0
  or_again-IsFetched router session (o, w) (inl (topo, rows, listed, e)) = (
    topo,
    rows,
    listed,
    ap (λ o. (or_again post username password "data_repo.webinfo" "get_topology" session (o, w)).0)
        e,
  )
  or_again-IsFetched router session (o, w) (inr e) =
      subst
        (λ o.
          IsFetched
            (or_again post username password "data_repo.webinfo" "get_topology" session (o, w)).0)
        (sym e) (login-IsFetched router session w)

  fetch-IsFetched :
      IsRouter post username password Serves
      → (session : Json) (w : W)
      → IsFetched (fetch post username password "data_repo.webinfo" "get_topology" session w).0
  unfolding fetch
  fetch-IsFetched router session w =
      or_again-IsFetched router session (ubus post w (topology_request post session))
        (elim (router.refuses w session) [
          | inl served ↦ inl (ubus-served w session served)
          | inr (status, refused) ↦ inr (ubus-refused w session status refused)
        ])

-- Each round shows rows.
abbrev pub AllShown : List Round → Type 0
AllShown [] = Unit
AllShown (shown rows ∷ rounds) = AllShown rounds
AllShown (failed ∷ rounds) = ⊥

AllShown-round :
    (o : Outcome) (topo : Json) (rows : List Station) (later : List Round)
    → stations topo ≡ some rows
    → o ≡ ok topo
    → AllShown later
    → AllShown (round_of o ∷ later)
AllShown-round o topo rows later listed e h =
    let is_shown : round_of o ≡ shown rows = ap round_of e ∙ ap rows_shown listed in rw is_shown h

-- On a router that grants sessions to logins, each round of a run with `--watch` comes to its report,
-- however long the run is and whenever the sessions end: a refused session is renewed within its round.
pub watch_rounds-AllShown :
    {W : Type 0} (post : W → Request → Option Json × W) (username password : String)
    (Serves : W → Json → Type 0)
    → IsRouter post username password Serves
    → (count : ℕ) (session : Json) (w : W)
    → (length (watch_rounds post true username password count session w) ≡ count)
      × AllShown (watch_rounds post true username password count session w)
unfolding watch_rounds
watch_rounds-AllShown post username password Serves router zero session w = (refl, tt)
watch_rounds-AllShown post username password Serves router (suc count) session w =
    let r = fetch post username password "data_repo.webinfo" "get_topology" session w in
    let (topo, rows, listed, e) = fetch-IsFetched post username password Serves router session w in
    let ih = watch_rounds-AllShown post username password Serves router count r.1 r.2 in
    (
      ap suc ih.0,
      AllShown-round r.0 topo rows (watch_rounds post true username password count r.1 r.2) listed e
          ih.1,
    )
