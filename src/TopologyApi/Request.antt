-- ===== src/TopologyApi/Request.antt =====
-- services/topology/topologyService.ts: what its methods share. The time stamp of a result, which
-- nothing reads, is left out.
use net_test_toy.Http.Types.{
  Fault, Json, Outcome, Request, array, fields, json_or, message_or, nil, number, object, read,
  returned, thrown,
}
use net_test_toy.Http.Program.{Prog, Server, bind, catch, done, fetch, lift, run, run-bind, sent}
use net_test_toy.Base.{
  Bool, List, Option, String, [], ap, false, if◌then◌else◌, none, refl, some, true, ℕ, ◌<>◌, ◌∷◌,
  ◌≡◌,
}
use net_test_toy.Base.Texts.{decimal}
use net_test_toy.Storage.{or_else}

pub record MutationResult : Type 0 where
  pub success : Bool
  pub payload : Option Json
  pub error_text : Option String

-- `hostUrl || this.baseUrl`
abbrev get_url : String → Option String → String
get_url endpoint h = or_else h "" <> endpoint

-- The request of `fetchWrapper(this.getUrl(path?query, hostUrl), { method, body })`
unfoldable pub request :
    String → Option String → String → List (String × String) → Option Json → Request
request method h path query body = record {
  method = method;
  url = get_url path h;
  query = query;
  body = body;
}

abbrev pub succeeded : Option Json → MutationResult
succeeded v = record { success = true; payload = v; error_text = none }

abbrev pub failed : String → Fault → MutationResult
failed fallback f = record {
  success = false;
  payload = none;
  error_text = some (message_or fallback f);
}

-- `try { await fetchWrapper(…); return { success: true } } catch (error) { … }`
unfoldable pub mutate : Request → String → Prog MutationResult
mutate r fallback =
    catch (bind (fetch r) (λ v. done (succeeded none))) (λ f. done (failed fallback f))

-- The same with `data: result`
pub mutate_with_data : Request → String → Prog MutationResult
mutate_with_data r fallback =
    catch (bind (fetch r) (λ v. done (succeeded (some v)))) (λ f. done (failed fallback f))

-- How a call ends, as its result
abbrev pub settled : Bool → String → Outcome Json → MutationResult
settled with_data fallback (returned v) = succeeded (if with_data then some v else none)
settled with_data fallback (thrown f) = failed fallback f

module _ (fallback : String) where
  sent-settled :
      (reply : Request → Outcome Json) (r : Request) (o : Outcome Json)
      → sent reply
          (catch (bind (lift o) (λ v. done (succeeded none))) (λ f. done (failed fallback f)))
        ≡ []
  sent-settled reply r (returned v) = refl
  sent-settled reply r (thrown f) = refl

  -- A mutation sends one request, whatever the outcome.
  pub sent-mutate :
      (reply : Request → Outcome Json) (r : Request) → sent reply (mutate r fallback) ≡ r ∷ []
  unfolding mutate
  sent-mutate reply r = ap (λ rs. r ∷ rs) (sent-settled reply r (reply r))

  run-settled :
      {W : Type 0} (serve : Server W) (o : Outcome Json) (w : W)
      → run serve
          (catch (bind (lift o) (λ v. done (succeeded none))) (λ f. done (failed fallback f)))
          w
        ≡ (returned (settled false fallback o), w)
  run-settled serve (returned v) w = refl
  run-settled serve (thrown f) w = refl

  -- It never throws: an error becomes a result.
  pub run-mutate :
      {W : Type 0} (serve : Server W) (r : Request) (w : W)
      → run serve (mutate r fallback) w
        ≡ (returned (settled false fallback (serve r w).0), (serve r w).1)
  unfolding mutate
  run-mutate serve r w = run-settled serve (serve r w).0 (serve r w).1

  run-settled_with_data :
      {W : Type 0} (serve : Server W) (o : Outcome Json) (w : W)
      → run serve
          (catch (bind (lift o) (λ v. done (succeeded (some v)))) (λ f. done (failed fallback f)))
          w
        ≡ (returned (settled true fallback o), w)
  run-settled_with_data serve (returned v) w = refl
  run-settled_with_data serve (thrown f) w = refl

  pub run-mutate_with_data :
      {W : Type 0} (serve : Server W) (r : Request) (w : W)
      → run serve (mutate_with_data r fallback) w
        ≡ (returned (settled true fallback (serve r w).0), (serve r w).1)
  unfolding mutate_with_data
  run-mutate_with_data serve r w = run-settled_with_data serve (serve r w).0 (serve r w).1

-- What follows a mutation goes on from its result.
pub run-bind-mutate :
    {A W : Type 0} (fallback : String) (serve : Server W) (r : Request)
    (k : MutationResult → Prog A) (w : W)
    → run serve (bind (mutate r fallback) k) w
      ≡ run serve (k (settled false fallback (serve r w).0)) (serve r w).1
run-bind-mutate fallback serve r k w =
    rw
      (
        run-bind serve (mutate r fallback) k w,
        run-mutate fallback serve r w,
        run-mutate fallback serve r w,
      )
      refl

-- `response.k || []`
abbrev pub list_of : String → Json → Prog Json
list_of k v = bind (lift (read k v)) (λ o. done (json_or (array nil) o))

abbrev pub sent_object : List (String × Option Json) → Option Json
sent_object ps = some (object (fields ps))

abbrev pub count : ℕ → Json
count n = number (decimal n)

abbrev pub option_map : {A : Type 0} → (A → Json) → Option A → Option Json
option_map f none = none
option_map f (some a) = some (f a)

-- `if (greKey !== undefined) params.append('gre_key', greKey.toString())`
abbrev pub append_key : Option ℕ → List (String × String)
append_key none = []
append_key (some k) = ("gre_key", decimal k) ∷ []
