-- ===== src/Connections/Ids.antt =====
-- The ids of a list of clients under the changes that the reducers make.
use mathlib.Core.Option
use net_test_toy.Connections.{UnifiedClient, client_ids, has_id}
use net_test_toy.Base.{
  Bool, List, String, [], any, arith, false, filter, find, if◌then◌else◌, none, not, refl, some,
  true, update_first, ◌++◌, ◌==◌, ◌∷◌, ◌≡◌,
}
use net_test_toy.Base.Texts.{includes, without}

pub any-has_id :
    (id : String) (cs : List UnifiedClient) → any (has_id id) cs ≡ includes id (client_ids cs)
any-has_id id [] = refl
any-has_id id (c ∷ cs) = ground (arith, any-has_id id cs)

pub client_ids-append :
    (cs ds : List UnifiedClient) → client_ids (cs ++ ds) ≡ client_ids cs ++ client_ids ds
client_ids-append [] ds = refl
client_ids-append (c ∷ cs) ds = ground (arith, client_ids-append cs ds)

pub client_ids-filter :
    (id : String) (cs : List UnifiedClient)
    → client_ids (filter (λ c. not (has_id id c)) cs) ≡ without id (client_ids cs)
client_ids-filter id [] = refl
client_ids-filter id (c ∷ cs) = ground (arith, client_ids-filter id cs)

pub client_ids-update_first :
    (p : UnifiedClient → Bool) (f : UnifiedClient → UnifiedClient)
    → ((c : UnifiedClient) → (f c).id ≡ c.id)
    → (cs : List UnifiedClient) → client_ids (update_first p f cs) ≡ client_ids cs
client_ids-update_first p f same [] = refl
client_ids-update_first p f same (c ∷ cs) =
    ground (arith, same c, client_ids-update_first p f same cs)

pub find-append :
    (id : String) (cs ds : List UnifiedClient)
    → find (has_id id) (cs ++ ds)
      ≡ (if any (has_id id) cs then find (has_id id) cs else find (has_id id) ds)
find-append id [] ds = refl
find-append id (c ∷ cs) ds = ground (arith, find-append id cs ds)

pub find-filter :
    (id j : String) (cs : List UnifiedClient)
    → find (has_id j) (filter (λ c. not (has_id id c)) cs)
      ≡ (if id == j then none else find (has_id j) cs)
find-filter id j [] = ground arith
find-filter id j (c ∷ cs) = ground (arith, find-filter id j cs)

pub find-update_first :
    (id j : String) (f : UnifiedClient → UnifiedClient)
    → ((c : UnifiedClient) → (f c).id ≡ c.id)
    → (cs : List UnifiedClient)
    → find (has_id j) (update_first (has_id id) f cs)
      ≡ (if id == j then Option.map f (find (has_id j) cs) else find (has_id j) cs)
find-update_first id j f same [] = ground arith
find-update_first id j f same (c ∷ cs) = ground (arith, same c, find-update_first id j f same cs)

pub any-find :
    (id : String) (cs : List UnifiedClient)
    → any (has_id id) cs ≡ (elim (find (has_id id) cs) [ none ↦ false | some _ ↦ true ])
any-find id [] = refl
any-find id (c ∷ cs) = ground (arith, any-find id cs)
