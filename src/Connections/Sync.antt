-- ===== src/Connections/Sync.antt =====
-- `syncLocalDaemons` of store/connectionSlice.ts against a description of each client by its id.
use text.Mathlib.TextLemmas.{append_cancel_left}
use net_test_toy.Connections.{
  ConnectionState, LocalDaemon, UnifiedClient, client_ids, daemon_client_id, discovered,
  ensure_selected, has_id, local_ids, refreshed, remove_gone, sync_daemon, sync_daemons, synced,
  without_client,
}
use net_test_toy.Connections.Ids.{any-find, find-append, find-filter, find-update_first}
use net_test_toy.Connections.Valid.{ensure_selected_cases}
use net_test_toy.Base.{
  List, Option, Option-cases, String, [], ap, arith, false, filter, find, if◌then◌else◌, inl, inr,
  none, refl, some, text_dec, ◌==◌, ◌∙◌, ◌∷◌, ◌≡◌,
}
use net_test_toy.Base.Texts.{Distinct, includes, includes-without, without}

-- The last daemon of the list whose client has the id `j`.
pub last_for : String → List LocalDaemon → Option LocalDaemon
last_for j [] = none
last_for j (d ∷ ds) = elim (last_for j ds) [
  | some e ↦ some e
  | none ↦ if daemon_client_id d == j then some d else none
]

last_for-id :
    (j : String) (ds : List LocalDaemon) (e : LocalDaemon)
    → last_for j ds ≡ some e
    → daemon_client_id e ≡ j
unfolding last_for
last_for-id j [] e h = cc
last_for-id j (d ∷ ds) e h = ground (arith, last_for-id j ds e)

-- What one daemon makes of the client that has its id, if there is one.
pub seen : LocalDaemon → Option UnifiedClient → UnifiedClient
seen d none = discovered d
seen d (some c) = refreshed d c

-- What a synchronisation makes of the client `o` that has the id `j`.
abbrev pub expected : List LocalDaemon → String → Option UnifiedClient → Option UnifiedClient
expected ds j o = elim (last_for j ds) [
  | some d ↦ some (seen d o)
  | none ↦ elim o [ none ↦ none | some c ↦ if c.is_local then none else some c ]
]

daemon_client_id-injective :
    (d e : LocalDaemon) → daemon_client_id d ≡ daemon_client_id e → d.name ≡ e.name
unfolding daemon_client_id
daemon_client_id-injective d e h = append_cancel_left "local-" d.name e.name h

seen_again :
    (d e : LocalDaemon) (o : Option UnifiedClient)
    → daemon_client_id d ≡ daemon_client_id e
    → seen e (some (seen d o)) ≡ seen e o
unfolding seen refreshed discovered
seen_again d e none h = ground (arith, daemon_client_id-injective d e h)
seen_again d e (some c) h = refl

find-sync_daemon :
    (d : LocalDaemon) (j : String) (cs : List UnifiedClient)
    → find (has_id j) (sync_daemon d cs)
      ≡ (if daemon_client_id d == j then some (seen d (find (has_id j) cs)) else find (has_id j) cs)
unfolding sync_daemon seen refreshed discovered
find-sync_daemon d j cs = ground (
  arith,
  find-update_first (daemon_client_id d) j (refreshed d) (λ c. refl) cs,
  find-append j cs (discovered d ∷ []),
  any-find (daemon_client_id d) cs,
  any-find j cs,
)

-- the clients after the loop, as the loop goes
met : List LocalDaemon → String → Option UnifiedClient → Option UnifiedClient
met [] j o = o
met (d ∷ ds) j o = met ds j (if daemon_client_id d == j then some (seen d o) else o)

met-last_for-cons_same :
    (d : LocalDaemon) (ds : List LocalDaemon) (j : String) (o : Option UnifiedClient)
    → daemon_client_id d ≡ j
    → ((x : Option UnifiedClient)
        → met ds j x ≡ (elim (last_for j ds) [ none ↦ x | some d' ↦ some (seen d' x) ]))
    → met (d ∷ ds) j o ≡ (elim (last_for j (d ∷ ds)) [ none ↦ o | some d' ↦ some (seen d' o) ])
unfolding met last_for
met-last_for-cons_same d ds j o p ih = elim (Option-cases (last_for j ds)) [
  | inl e ↦ ground (arith, ih (some (seen d o)))
  | inr (e', e) ↦ ground (arith, ih (some (seen d o)), seen_again d e' o, last_for-id j ds e' e)
]

met-last_for :
    (ds : List LocalDaemon) (j : String) (o : Option UnifiedClient)
    → met ds j o ≡ (elim (last_for j ds) [ none ↦ o | some d ↦ some (seen d o) ])
unfolding met last_for
met-last_for [] j o = refl
met-last_for (d ∷ ds) j o = elim (text_dec (daemon_client_id d) j) [
  | yes p ↦ met-last_for-cons_same d ds j o p (met-last_for ds j)
  | no n ↦ ground (arith, met-last_for ds j o)
]

find-sync_daemons :
    (ds : List LocalDaemon) (j : String) (cs : List UnifiedClient) (gone : List String)
    → find (has_id j) (sync_daemons ds cs gone).0 ≡ met ds j (find (has_id j) cs)
unfolding sync_daemons met
find-sync_daemons [] j cs gone = refl
find-sync_daemons (d ∷ ds) j cs gone =
    find-sync_daemons ds j (sync_daemon d cs) (without (daemon_client_id d) gone)
    ∙ ap (met ds j) (find-sync_daemon d j cs)

includes-sync_daemons :
    (ds : List LocalDaemon) (j : String) (cs : List UnifiedClient) (gone : List String)
    → includes j (sync_daemons ds cs gone).1
      ≡ (elim (last_for j ds) [ none ↦ includes j gone | some d ↦ false ])
unfolding sync_daemons last_for
includes-sync_daemons [] j cs gone = refl
includes-sync_daemons (d ∷ ds) j cs gone = ground (
  arith,
  includes-sync_daemons ds j (sync_daemon d cs) (without (daemon_client_id d) gone),
  includes-without j (daemon_client_id d) gone,
)

find-remove_gone :
    (ids : List String) (j : String) (s : ConnectionState)
    → find (has_id j) (remove_gone ids s).clients
      ≡ (if includes j ids then none else find (has_id j) s.clients)
unfolding remove_gone
find-remove_gone [] j s = refl
find-remove_gone (id ∷ ids) j s =
    ground (arith, find-remove_gone ids j (without_client id s), find-filter id j s.clients)

clients-ensure_selected : (s : ConnectionState) → (ensure_selected s).clients ≡ s.clients
clients-ensure_selected s = elim (ensure_selected_cases s _ _ refl refl) [
  | inl same ↦ ap (λ t. t.clients) same
  | inr (c, rest, e, picked) ↦ ap (λ t. t.clients) picked
]

includes-local_ids_absent :
    (j : String) (cs : List UnifiedClient)
    → includes j (client_ids cs) ≡ false
    → includes j (client_ids (filter (λ c. c.is_local) cs)) ≡ false
includes-local_ids_absent j [] h = refl
includes-local_ids_absent j (c ∷ cs) h = ground (arith, includes-local_ids_absent j cs)

includes-local_ids :
    (j : String) (cs : List UnifiedClient)
    → Distinct (client_ids cs)
    → includes j (local_ids cs) ≡ (elim (find (has_id j) cs) [ none ↦ false | some c ↦ c.is_local ])
unfolding local_ids
includes-local_ids j [] h = refl
includes-local_ids j (c ∷ cs) h =
    ground (arith, includes-local_ids j cs h.1, includes-local_ids_absent c.id cs)

-- Where the ids of the clients are distinct, a synchronisation leaves under each id the client
-- refreshed or discovered from the last daemon of the list with that id; without such a daemon a
-- local client is gone, and any other is as it was.
pub find-synced :
    (ds : List LocalDaemon) (s : ConnectionState) (j : String)
    → Distinct (client_ids s.clients)
    → find (has_id j) (synced ds s).clients ≡ expected ds j (find (has_id j) s.clients)
unfolding synced
find-synced ds s j u =
    let r = sync_daemons ds s.clients (local_ids s.clients) in
    ground (
      arith,
      clients-ensure_selected (remove_gone r.1 (record s { clients = r.0 })),
      find-remove_gone r.1 j (record s { clients = r.0 }),
      find-sync_daemons ds j s.clients (local_ids s.clients),
      met-last_for ds j (find (has_id j) s.clients),
      includes-sync_daemons ds j s.clients (local_ids s.clients),
      includes-local_ids j s.clients u,
    )
