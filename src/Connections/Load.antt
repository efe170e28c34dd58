-- ===== src/Connections/Load.antt =====
-- `loadFromStorage` of store/connectionSlice.ts, with its migration of old container addresses.
use text.Mathlib.Text.{find?}
use net_test_toy.Connections.{ConnectionState, Store, UnifiedClient, commit, has_id}
use net_test_toy.Base.{
  Bool, List, Option, [], any, arith, false, filter, if◌then◌else◌, none, not, refl, some, true,
  ◌&&◌, ◌∷◌, ◌≡◌,
}

-- `c.isLocal && c.baseUrl.includes('192.168.70.')`
pub is_old : UnifiedClient → Bool
is_old c = c.is_local && (elim (find? c.base_url "192.168.70.") [ none ↦ false | some i ↦ true ])

pub migrated : ConnectionState → ConnectionState
migrated s =
    let cs = filter (λ c. not c.is_local) s.clients in
    if any is_old s.clients
    then record s {
      clients = cs;
      selected_client_ids = filter (λ id. any (has_id id) cs) s.selected_client_ids;
    }
    else s

abbrev pub default_state : ConnectionState
default_state = record { clients = []; selected_client_ids = []; global_poll_interval = 5 }

-- The state at the start, and the store: a migration is written back. The argument is what the
-- storage holds, as JSON, if anything and if it can be parsed. It is a state that the slice has
-- written: JSON of another shape, on which the migration can throw, is not among the arguments.
pub load_from_storage : (ConnectionState → Bool) → Option ConnectionState → Store
load_from_storage room none = record { state = default_state; saved = none }
load_from_storage room (some s) =
    let w : Store = record { state = s; saved = some s } in
    if any is_old s.clients then commit room (migrated s) w else w

any-filter :
    (p q : UnifiedClient → Bool) (cs : List UnifiedClient)
    → ((c : UnifiedClient) → p c ≡ true → q c ≡ false)
    → any p (filter q cs) ≡ false
any-filter p q [] h = refl
any-filter p q (c ∷ cs) h = ground (arith, h c, any-filter p q cs h)

not_old : (c : UnifiedClient) → is_old c ≡ true → not c.is_local ≡ false
unfolding is_old
not_old c h = ground arith

any-is_old-migrated : (s : ConnectionState) → any is_old (migrated s).clients ≡ false
unfolding migrated
any-is_old-migrated s = ground (arith, any-filter is_old (λ c. not c.is_local) s.clients not_old)

-- A second start finds the migration done: it loads the state that the first start made.
pub load_from_storage_again :
    (room : ConnectionState → Bool) (s : ConnectionState)
    → room (migrated s) ≡ true
    → load_from_storage room (load_from_storage room (some s)).saved
      ≡ load_from_storage room (some s)
unfolding load_from_storage commit
load_from_storage_again room s r = ground (arith, any-is_old-migrated s)
