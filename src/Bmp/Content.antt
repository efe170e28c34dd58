-- ===== src/Bmp/Content.antt =====
-- What bmpSlice.ts stores: messages, peers, routes, rules and the data of several clients.
use Prim.Native.Nat.{min}
use net_test_toy.Bmp.{
  BmpData, BmpState, ClientAnswer, Route, add_message, client_data, client_error, fetch_routes,
  fulfilled, message_added, of_peer, reduce, split_routes, store_answers,
}
use net_test_toy.Base.{
  List, String, [], ap, arith, if◌then◌else◌, length, length-take, none, refl, some, sym, take, ◌+◌,
  ◌==◌, ◌∙◌, ◌∷◌, ◌≡◌, ◌≤◌,
}
use net_test_toy.Base.Texts.{Distinct}
use net_test_toy.Base.Dict.{Dict, insert, keys, lookup, lookup-absent, lookup-insert}
use net_test_toy.Base.Buffer.{cut-take, newest_first, take-all, take-newest_first, take-take-same}

-- The filters of `fetchBMPRoutes.fulfilled` share the routes between them.
length-split_routes :
    {P : Type 0} (rs : List (Route P))
    → length (split_routes rs).advertised + length (split_routes rs).received ≡ length rs
length-split_routes [] = refl
length-split_routes (r ∷ rs) = ground (arith, length-split_routes rs)

module _ {P : Type 0} where
  -- The answers of several clients, each with an address of its own, give each client that
  -- answered its data in whatever order they come; a client whose call failed keeps what it had.
  pub lookup-store_answers :
      (url : String) (answers : Dict (ClientAnswer P)) (known : Dict (BmpData P))
      → Distinct (keys answers)
      → lookup url (store_answers answers known) ≡ (elim (lookup url answers) [
        | some (client_data d) ↦ some d
        | some (client_error e) ↦ lookup url known
        | none ↦ lookup url known
      ])
  unfolding store_answers
  lookup-store_answers url [] known u = refl
  lookup-store_answers url ((k, client_error e) ∷ answers) known u =
      ground (arith, lookup-store_answers url answers known u.1, lookup-absent k answers u.0)
  lookup-store_answers url ((k, client_data d) ∷ answers) known u = ground (
    arith,
    lookup-store_answers url answers (insert k d known) u.1,
    lookup-insert k url d known,
    lookup-absent k answers u.0,
  )

bounded : {A : Type 0} (xs ys : List A) → ys ≡ take 1000 xs → length ys ≤ 1000
bounded xs ys e =
    let f : length ys ≡ min 1000 (length xs) = ap length e ∙ length-take 1000 xs in omega arith

module _ {P : Type 0} (no_filter : P) where
  -- Messages that arrive one after the other, the oldest first.
  abbrev pub add_all : String → List P → BmpState P → BmpState P
  add_all now [] s = s
  add_all now (m ∷ ms) s = add_all now ms (reduce no_filter (add_message now m) s)

  messages-add_message :
      (now : String) (m : P) (s : BmpState P)
      → (reduce no_filter (add_message now m) s).messages ≡ take 1000 (m ∷ s.messages)
  unfolding reduce message_added
  messages-add_message now m s = cut-take 1000 (m ∷ s.messages)

  -- Messages that arrive one after the other are kept newest first before those of the state, which
  -- are at most 1000; the oldest of all go, so that at most 1000 stay.
  pub messages-add_all :
      (now : String) (ms : List P) (s : BmpState P)
      → length s.messages ≤ 1000
      → (add_all now ms s).messages ≡ take 1000 (newest_first ms s.messages)
  messages-add_all now [] s h = sym (take-all 1000 s.messages h)
  messages-add_all now (m ∷ ms) s h =
      let e = messages-add_message now m s in
      messages-add_all now ms (reduce no_filter (add_message now m) s)
        (bounded (m ∷ s.messages) (reduce no_filter (add_message now m) s).messages e)
      ∙ ap (λ z. take 1000 (newest_first ms z)) e
      ∙ take-newest_first 1000 ms (take 1000 (m ∷ s.messages)) (m ∷ s.messages)
          (take-take-same 1000 (m ∷ s.messages))

  -- The routes of a peer that were asked for are kept under its address, the advertised apart from
  -- the received and none lost; the routes of every other peer stay as they were.
  pub routes-fetch_routes :
      (now p q : String) (rs : List (Route P)) (s : BmpState P)
      → let t : BmpState P = reduce no_filter (fetch_routes (fulfilled now (of_peer p rs))) s in
        (lookup q t.routes ≡ (if p == q then some (split_routes rs) else lookup q s.routes))
        × (length (split_routes rs).advertised + length (split_routes rs).received ≡ length rs)
  unfolding reduce
  routes-fetch_routes now p q rs s =
      (lookup-insert p q (split_routes rs) s.routes, length-split_routes rs)
