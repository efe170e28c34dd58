-- ===== src/Http/Wrapper/Logged.antt =====
-- What fetchWrapper.ts puts into the history, against what its caller gets.
use net_test_toy.Http.{Fault, Json, Outcome, and_then, error, is_returned, returned, thrown}
use net_test_toy.Http.Wrapper.{
  Call, FetchOptions, Received, Response, answered_entry, caught, common_data, contains,
  failed_entry, failed_response, fault_entry, fault_info, fetch_wrapper, http_message, is_abort,
  is_ok, log, logged_then, read_response, received, responded, shown_body, timeout_fault, told,
  with_status,
}
use net_test_toy.Http.History.{CallData, is_success}
use net_test_toy.Http.Wrapper.Answered.{
  is_returned-cases, is_returned-caught, is_returned-fetch_wrapper, log-cases,
}
use net_test_toy.Base.{
  All, Bool-cases, Option, String, [], arith, false, inl, inr, length, refl, some, sym, text_dec,
  true, ℕ, ◌==◌, ◌∙◌, ◌∷◌, ◌≡◌,
}

module _ (parse : String → Outcome Json) (options : FetchOptions) (url : String) where
  abbrev pub IsTold : Call → Type 0
  IsTold c = All (λ e. is_success e ≡ is_returned c.outcome) c.logged

  told-IsTold : (late : ℕ) (f : Fault) → IsTold (told parse options url late f)
  unfolding told fault_entry common_data fault_info
  told-IsTold late f = elim (log-cases parse options url (fault_entry parse options url late f)) [
    | inl e ↦ rw e tt
    | inr (inl (b, e)) ↦ rw e (refl, tt)
    | inr (inr (g, e)) ↦ rw e tt
  ]

  caught-IsTold : (late : ℕ) (f : Fault) → IsTold (caught parse options url late f)
  unfolding caught
  caught-IsTold late f = elim (Bool-cases (is_abort f)) [
    | inl e ↦ rw e (told-IsTold late (timeout_fault parse options url))
    | inr e ↦ ground (arith, e, told-IsTold late f)
  ]

  received-IsTold :
      (d late : ℕ) (r : Response) (o : Outcome (Json × Received))
      → is_ok r ≡ true
      → IsTold (received parse options url d late r o)
  unfolding received answered_entry with_status common_data logged_then
  received-IsTold d late r (returned (shown, v)) h =
      elim (log-cases parse options url (answered_entry parse options url d r shown)) [
        | inl e ↦ rw e tt
        | inr (inl (b, e)) ↦ rw e (ground (arith, h), tt)
        | inr (inr (g, e)) ↦ rw e (caught-IsTold late g)
      ]
  received-IsTold d late r (thrown f) h = caught-IsTold late f

  failed-IsTold :
      (d late : ℕ) (r : Response)
      → IsTold (
          logged_then parse options url late
            (failed_response parse options url late r)
            (log parse options url (failed_entry parse options url d r)))
  unfolding failed_entry with_status common_data logged_then failed_response
  failed-IsTold d late r =
      let f : Fault = error "Error" (http_message r) in
      elim (log-cases parse options url (failed_entry parse options url d r)) [
        | inl e ↦ rw e (caught-IsTold late f)
        | inr (inl (b, e)) ↦
            rw e (sym (is_returned-caught parse options url late f), caught-IsTold late f)
        | inr (inr (g, e)) ↦ rw e (caught-IsTold late g)
      ]

  responded-IsTold : (d late : ℕ) (r : Response) → IsTold (responded parse options url d late r)
  unfolding responded
  responded-IsTold d late r = elim (Bool-cases (is_ok r)) [
    | inr bad ↦ rw bad (failed-IsTold d late r)
    | inl ok ↦ rw ok (received-IsTold d late r (read_response parse options url r) ok)
  ]

  -- Every entry that a call puts into the history says whether the caller got an answer.
  pub fetch_wrapper-IsTold :
      (d late : ℕ) (fetched : Outcome Response)
      → IsTold (fetch_wrapper parse options url d late fetched)
  unfolding fetch_wrapper
  fetch_wrapper-IsTold d late (returned r) = responded-IsTold d late r
  fetch_wrapper-IsTold d late (thrown f) = caught-IsTold late f

  -- What is logged when the body is JSON, and when it is not
  log_told :
      (c : CallData)
      → options.suppress_logs ≡ false
      → is_returned (shown_body parse options url) ≡ true
      → (b : Option Json) × (log parse options url c ≡ returned (record c { body = b } ∷ []))
  log_told c s p = elim (is_returned-cases (shown_body parse options url)) [
    | inl (b, e) ↦ (b, rw (s, e) refl)
    | inr (g, e) ↦ absurd (cc)
  ]

  shown_body_thrown :
      (body : String) (f : Fault)
      → options.body ≡ some body
      → (body == "") ≡ false
      → parse body ≡ thrown f
      → shown_body parse options url ≡ thrown f
  shown_body_thrown body f b n p = ground (arith, b, n, p)

  thrown_body :
      (c : CallData) (f : Fault)
      → shown_body parse options url ≡ thrown f
      → and_then (shown_body parse options url) (λ b. returned (record c { body = b } ∷ []))
        ≡ thrown f
  thrown_body c f e = rw e refl

  log_thrown :
      (c : CallData) (body : String) (f : Fault)
      → options.suppress_logs ≡ false
      → options.body ≡ some body
      → (body == "") ≡ false
      → parse body ≡ thrown f
      → log parse options url c ≡ thrown f
  log_thrown c body f s b n p = ground (arith, s, thrown_body c f (shown_body_thrown body f b n p))

  -- A failed response whose message does not have the text `HTTP` in it goes into the history twice,
  -- unless the call is not to be logged or its body is not JSON.
  pub failed_twice :
      (d late : ℕ) (r : Response)
      → options.suppress_logs ≡ false
      → is_returned (shown_body parse options url) ≡ true
      → is_ok r ≡ false
      → contains (http_message r) "HTTP" ≡ false
      → length (fetch_wrapper parse options url d late (returned r)).logged ≡ 2
  unfolding fetch_wrapper responded caught told text_dec logged_then failed_response
  failed_twice d late r s p b h =
      let (x, e) = log_told (failed_entry parse options url d r) s p in
      let f : Fault = error "Error" (http_message r) in
      let (y, k) = log_told (fault_entry parse options url late f) s p in rw (b, e, h, k) refl

  caught_silent :
      (late : ℕ) (g f : Fault)
      → ((c : CallData) → log parse options url c ≡ thrown f)
      → (caught parse options url late g).logged ≡ []
  unfolding caught told
  caught_silent late g f h = ground (
    arith,
    h (fault_entry parse options url late g),
    h (fault_entry parse options url late (timeout_fault parse options url)),
  )

  received_silent :
      (d late : ℕ) (r : Response) (o : Outcome (Json × Received)) (f : Fault)
      → ((c : CallData) → log parse options url c ≡ thrown f)
      → (received parse options url d late r o).logged ≡ []
  unfolding received logged_then
  received_silent d late r (returned (shown, v)) f h =
      rw (h (answered_entry parse options url d r shown)) (caught_silent late f f h)
  received_silent d late r (thrown g) f h = caught_silent late g f h

  responded_silent :
      (d late : ℕ) (r : Response) (f : Fault)
      → ((c : CallData) → log parse options url c ≡ thrown f)
      → (responded parse options url d late r).logged ≡ []
  unfolding responded logged_then
  responded_silent d late r f h = elim (Bool-cases (is_ok r)) [
    | inl ok ↦ rw ok (received_silent d late r (read_response parse options url r) f h)
    | inr bad ↦ rw (bad, h (failed_entry parse options url d r)) (caught_silent late f f h)
  ]

  -- A call whose body is not empty and not JSON, and which is to be logged, never gives its caller an answer and
  -- never goes into the history, whatever the browser's `fetch` gives.
  pub unreadable_body :
      (d late : ℕ) (fetched : Outcome Response) (body : String) (f : Fault)
      → options.suppress_logs ≡ false
      → options.body ≡ some body
      → (body == "") ≡ false
      → parse body ≡ thrown f
      → let c : Call = fetch_wrapper parse options url d late fetched in
        (is_returned c.outcome ≡ false) × (c.logged ≡ [])
  unfolding fetch_wrapper
  unreadable_body d late (thrown g) body f s b n p = (
    is_returned-caught parse options url late g,
    caught_silent late g f (λ c. log_thrown c body f s b n p),
  )
  unreadable_body d late (returned r) body f s b n p = (
    is_returned-fetch_wrapper parse options url d late (returned r)
        ∙ ground (arith, s, shown_body_thrown body f b n p),
    responded_silent d late r f (λ c. log_thrown c body f s b n p),
  )
