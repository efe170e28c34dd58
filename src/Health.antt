-- ===== src/Health.antt =====
-- services/connection/connectionService.ts: whether the clients answer.
mod Tests
use Prim.Native.Nat.{min}
use net_test_toy.Http.{
  Fault, Json, Outcome, error, is_returned, message_or, other, outcome, returned, thrown,
}
use net_test_toy.Http.Wrapper.{
  Call, FetchOptions, Received, Response, as_json, fetch_wrapper, is_ok,
}
use net_test_toy.Http.History.{CallData}
use net_test_toy.Http.Wrapper.Answered.{
  aborted, aborted-fetch_wrapper, answers, fetch_wrapper-aborted, is_returned-fetch_wrapper,
}
use net_test_toy.Base.{
  Bool, Bool-cases, List, Option, String, [], ap, arith, false, filter, if◌then◌else◌, inl, inr,
  leb, ltb, map, none, refl, some, text_dec, true, ℕ, ◌&&◌, ◌<>◌, ◌==◌, ◌||◌, ◌∙◌, ◌∷◌, ◌≡◌, ◌≤◌,
}
use net_test_toy.Base.Texts.{decimal}

pub record Client : Type 0 where
  pub id : String
  pub base_url : String

pub data HealthStatus : Type 0 where
  connected failing : HealthStatus

pub record HealthResult : Type 0 where
  pub id : String
  pub status : HealthStatus
  pub error_text : Option String

-- What a request meets with: what `fetch` gives when nothing aborts it, how many milliseconds after
-- the start it gives that, and when the content of a response is there. `late` is when an error is
-- caught.
pub record Fetched : Type 0 where
  pub head_at : ℕ
  pub body_at : ℕ
  pub late : ℕ
  pub given : Outcome Response

-- The content is read under `timeoutMs` alone: the timer of the call ends with its response.
within : Fault → ℕ → ℕ → Outcome Response → Outcome Response
within abort timeout body_at (thrown f) = thrown f
within abort timeout body_at (returned r) =
    if ltb body_at timeout
    then returned r
    else returned (record r { content = thrown abort; blob_size = thrown abort })

-- `AbortSignal.any([…])`: what is not there before the first timer ends is aborted. The browser
-- throws an `AbortError` with a text of its own.
pub met : String → ℕ → Fetched → Outcome Response
unfolding within
met reason timeout f =
    let abort = error "AbortError" reason in
    if ltb f.head_at (min timeout 30000)
    then within abort timeout f.body_at f.given
    else thrown abort

abbrev health_options : Bool → FetchOptions
health_options suppress = record {
  method = none;
  body = none;
  suppress_logs = suppress;
  response_type = as_json;
  timeout = none;
}

-- The `catch` block
abbrev rethrown : Outcome Received → Outcome Unit
rethrown (returned v) = returned tt
rethrown (thrown (other shown)) = thrown (other shown)
rethrown (thrown (error name message)) =
    thrown (if name == "AbortError" then error "Error" "Connection timeout" else error name message)

-- An outcome without its value
abbrev pub without_value : Outcome Received → Outcome Unit
without_value (returned v) = returned tt
without_value (thrown f) = thrown f

rethrown_self : (o : Outcome Received) → aborted o ≡ false → rethrown o ≡ without_value o
rethrown_self (returned v) h = refl
rethrown_self (thrown (other shown)) h = refl
rethrown_self (thrown (error name message)) h = ground (arith, h)

module _ (parse : String → Outcome Json) (reason : String) where
  pub called : String → ℕ → Bool → Fetched → Call
  unfolding met
  called base_url timeout suppress f =
      fetch_wrapper parse (health_options suppress) (base_url <> "/backends") f.head_at f.late
        (met reason timeout f)

  -- With the outcome, what goes into the history
  pub check_health : String → ℕ → Bool → Fetched → Outcome Unit × List CallData
  unfolding called
  check_health base_url timeout suppress f =
      let c = called base_url timeout suppress f in (rethrown c.outcome, c.logged)

  abbrev result_of : String → Outcome Unit → HealthResult
  result_of i (returned u) = record { id = i; status = connected; error_text = none }
  result_of i (thrown f) = record {
    id = i;
    status = failing;
    error_text = some (message_or "Connection failed" f);
  }

  -- `fetched` is what each client's request meets with.
  pub check_multiple_connections : ℕ → (Client → Fetched) → List Client → List HealthResult
  unfolding check_health
  check_multiple_connections timeout fetched =
      map (λ c. result_of c.id (check_health c.base_url timeout false (fetched c)).0)

  abbrev is_connected : HealthResult → Bool
  is_connected r = elim r.status [ connected ↦ true | failing ↦ false ]

  is_connected-result_of :
      (i : String) (o : Outcome Received) → is_connected (result_of i (rethrown o)) ≡ is_returned o
  is_connected-result_of i (returned v) = refl
  is_connected-result_of i (thrown (error name message)) = refl
  is_connected-result_of i (thrown (other shown)) = refl

  abbrev readable : Outcome String → Bool
  readable (thrown f) = false
  readable (returned t) = t == "" || is_returned (parse t)

  -- A good response in time, and its content in time and readable unless it has none
  abbrev answered : ℕ → Fetched → Outcome Response → Bool
  answered timeout f (thrown e) = false
  answered timeout f (returned r) =
      ltb f.head_at (min timeout 30000)
      && (is_ok r
          && (leb r.status 204 && leb 204 r.status || ltb f.body_at timeout && readable r.content))

  abbrev is_answered : ℕ → (Client → Fetched) → Client → Bool
  is_answered timeout fetched c = answered timeout (fetched c) (fetched c).given

  answers-met :
      (url : String) (timeout : ℕ) (f : Fetched) (o : Outcome Response)
      → f.given ≡ o
      → answers parse (health_options false) url (met reason timeout f) ≡ answered timeout f o
  unfolding met within
  answers-met url timeout f (thrown e) h = ground (arith, h)
  answers-met url timeout f (returned r) h = ground (arith, h)

  abbrev id_of : HealthResult → String
  id_of r = r.id

  id_of-result_of : (i : String) (o : Outcome Unit) → id_of (result_of i o) ≡ i
  id_of-result_of i (returned u) = refl
  id_of-result_of i (thrown f) = refl

  is_connected-check_health :
      (timeout : ℕ) (fetched : Client → Fetched) (c : Client)
      → is_connected (result_of c.id (check_health c.base_url timeout false (fetched c)).0)
        ≡ is_answered timeout fetched c
  unfolding check_health called
  is_connected-check_health timeout fetched c =
      let f = fetched c in
      let url = c.base_url <> "/backends" in
      is_connected-result_of c.id
        (fetch_wrapper parse (health_options false) url f.head_at f.late
          (met reason timeout f)).outcome
      ∙ (is_returned-fetch_wrapper parse (health_options false) url f.head_at f.late
            (met reason timeout f)
          ∙ answers-met url timeout f f.given refl)

  -- The clients that are reported connected are, in order, those that give a good response before
  -- both limits, the check's and the call's 30 seconds, and then, unless its status is 204, content
  -- before the check's limit that is empty or JSON.
  pub connected-check_multiple_connections :
      (timeout : ℕ) (fetched : Client → Fetched) (clients : List Client)
      → map id_of (filter is_connected (check_multiple_connections timeout fetched clients))
        ≡ map (λ c. c.id) (filter (is_answered timeout fetched) clients)
  unfolding check_multiple_connections
  connected-check_multiple_connections timeout fetched [] = refl
  connected-check_multiple_connections timeout fetched (c ∷ cs) =
      elim (Bool-cases (is_answered timeout fetched c)) [
        | inl good ↦ ground (
          arith,
          good,
          is_connected-check_health timeout fetched c,
          id_of-result_of c.id (check_health c.base_url timeout false (fetched c)).0,
          connected-check_multiple_connections timeout fetched cs,
        )
        | inr bad ↦ ground (
          arith,
          bad,
          is_connected-check_health timeout fetched c,
          connected-check_multiple_connections timeout fetched cs,
        )
      ]

  -- The catch block of a check changes nothing: whatever the check's limit is and whatever its
  -- request meets with, the check ends as its call of `fetchWrapper` does, without the value.
  pub check_health_lem :
      (base_url : String) (timeout : ℕ) (suppress : Bool) (f : Fetched)
      → (check_health base_url timeout suppress f).0
        ≡ without_value (called base_url timeout suppress f).outcome
  unfolding check_health called
  check_health_lem base_url timeout suppress f =
      rethrown_self (called base_url timeout suppress f).outcome (
        aborted-fetch_wrapper parse (health_options suppress) (base_url <> "/backends") f.head_at
          f.late (met reason timeout f) (ground arith))

  met_late :
      (timeout : ℕ) (f : Fetched)
      → timeout ≤ f.head_at
      → met reason timeout f ≡ thrown (error "AbortError" reason)
  unfolding met
  met_late timeout f h = ground arith

  -- A check whose response is not there within its limit ends as a timeout after 30 seconds.
  pub late-check_health :
      (base_url : String) (timeout : ℕ) (suppress : Bool) (f : Fetched)
      → timeout ≤ f.head_at
      → (check_health base_url timeout suppress f).0
        ≡ thrown (error "TimeoutError" "Request timed out after 30000ms")
  unfolding check_health called text_dec net_test_toy.Base.Texts.decimal
  late-check_health base_url timeout suppress f h = rw (met_late timeout f h) (
      ap rethrown (
        fetch_wrapper-aborted parse (health_options suppress) (base_url <> "/backends") f.head_at
          f.late reason (ground arith)))
