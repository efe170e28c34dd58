-- ===== src/Http/Program.antt =====
-- A service method as the requests it sends: what it does next depends on the outcome of each.
use net_test_toy.Http.Types.{Fault, Json, Outcome, Request, and_then, returned, thrown}
use net_test_toy.Base.{List, [], ap, refl, ◌++◌, ◌∷◌, ◌≡◌}

pub data Prog (A : Type 0) : Type 0 where
  done : A → Prog A
  stop : Fault → Prog A
  ask : Request → (Outcome Json → Prog A) → Prog A

abbrev pub bind : {A B : Type 0} → Prog A → (A → Prog B) → Prog B
bind (done a) k = k a
bind (stop f) k = stop f
bind (ask r next) k = ask r (λ o. bind (next o) k)

-- `try { … } catch (error) { … }`
abbrev pub catch : {A : Type 0} → Prog A → (Fault → Prog A) → Prog A
catch (done a) k = done a
catch (stop f) k = k f
catch (ask r next) k = ask r (λ o. catch (next o) k)

abbrev pub lift : {A : Type 0} → Outcome A → Prog A
lift (returned a) = done a
lift (thrown f) = stop f

-- A program with its outcome as its value
abbrev pub attempt : {A : Type 0} → Prog A → Prog (Outcome A)
attempt p = catch (bind p (λ a. done (returned a))) (λ f. done (thrown f))

-- `await fetchWrapper(…)`
abbrev pub fetch : Request → Prog Json
fetch r = ask r lift

-- A server with its state `W`, and the network to it: each request has an outcome.
abbrev pub Server : Type 0 → Type 0
Server W = Request → W → Outcome Json × W

abbrev pub run : {A W : Type 0} → Server W → Prog A → W → Outcome A × W
run serve (done a) w = (returned a, w)
run serve (stop f) w = (thrown f, w)
run serve (ask r next) w = let (o, w') = serve r w in run serve (next o) w'

-- The requests that a program sends, when each has the outcome that `reply` says.
abbrev pub sent : {A : Type 0} → (Request → Outcome Json) → Prog A → List Request
sent reply (done a) = []
sent reply (stop f) = []
sent reply (ask r next) = r ∷ sent reply (next (reply r))

abbrev pub outcome : {A : Type 0} → (Request → Outcome Json) → Prog A → Outcome A
outcome reply (done a) = returned a
outcome reply (stop f) = thrown f
outcome reply (ask r next) = outcome reply (next (reply r))

-- With an answer to each request the program goes on like this.
pub run-bind :
    {A B W : Type 0} (serve : Server W) (p : Prog A) (k : A → Prog B) (w : W)
    → run serve (bind p k) w ≡ (elim ((run serve p w).0) [
      | returned a ↦ run serve (k a) (run serve p w).1
      | thrown f ↦ (thrown f, (run serve p w).1)
    ])
run-bind serve (done a) k w = refl
run-bind serve (stop f) k w = refl
run-bind serve (ask r next) k w = run-bind serve (next (serve r w).0) k (serve r w).1

-- Whatever the outcomes of its requests, a program that returns returns a value with `P`.
abbrev pub Ensures : {A : Type 0} → (A → Type 0) → Prog A → Type 0
Ensures P (done a) = P a
Ensures P (stop f) = Unit
Ensures P (ask r next) = (o : Outcome Json) → Ensures P (next o)

pub bind-Ensures :
    {A B : Type 0} (P : B → Type 0) (p : Prog A) (k : A → Prog B)
    → ((a : A) → Ensures P (k a))
    → Ensures P (bind p k)
bind-Ensures P (done a) k h = h a
bind-Ensures P (stop f) k h = tt
bind-Ensures P (ask r next) k h = λ o. bind-Ensures P (next o) k h

-- `P` of a value, and nothing of what is thrown
abbrev pub Holds : {A : Type 0} → (A → Type 0) → Outcome A → Type 0
Holds P (returned a) = P a
Holds P (thrown f) = Unit

pub run-Ensures :
    {A W : Type 0} (P : A → Type 0) (serve : Server W) (p : Prog A) (w : W)
    → Ensures P p
    → Holds P (run serve p w).0
run-Ensures P serve (done a) w h = h
run-Ensures P serve (stop f) w h = tt
run-Ensures P serve (ask r next) w h =
    run-Ensures P serve (next (serve r w).0) (serve r w).1 (h (serve r w).0)

pub and_then-Holds :
    {A B : Type 0} (P : A → Type 0) (Q : B → Type 0) (o : Outcome A) (k : A → Outcome B)
    → Holds P o
    → ((a : A) → P a → Holds Q (k a))
    → Holds Q (and_then o k)
and_then-Holds P Q (returned a) k h f = f a h
and_then-Holds P Q (thrown e) k h f = tt

pub lift-Ensures : {A : Type 0} (P : A → Type 0) (o : Outcome A) → Holds P o → Ensures P (lift o)
lift-Ensures P (returned a) h = h
lift-Ensures P (thrown f) h = tt

pub sent-bind :
    {A B : Type 0} (reply : Request → Outcome Json) (p : Prog A) (k : A → Prog B)
    → sent reply (bind p k)
      ≡ sent reply p ++ (elim (outcome reply p) [ returned a ↦ sent reply (k a) | thrown f ↦ [] ])
sent-bind reply (done a) k = refl
sent-bind reply (stop f) k = refl
sent-bind reply (ask r next) k = ap (λ rs. r ∷ rs) (sent-bind reply (next (reply r)) k)

pub sent-lift :
    {A : Type 0} (reply : Request → Outcome Json) (o : Outcome A) → sent reply (lift o) ≡ []
sent-lift reply (returned a) = refl
sent-lift reply (thrown f) = refl

pub sent-bind-lift :
    {A B : Type 0} (reply : Request → Outcome Json) (o : Outcome A) (k : A → Prog B)
    → ((a : A) → sent reply (k a) ≡ [])
    → sent reply (bind (lift o) k) ≡ []
sent-bind-lift reply (returned a) k h = h a
sent-bind-lift reply (thrown f) k h = refl
