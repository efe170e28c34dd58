-- ===== src/Http/Wrapper/Answered.antt =====
-- Which calls of fetchWrapper.ts give their caller an answer.
use net_test_toy.Http.{Fault, Json, Outcome, and_then, error, is_returned, returned, thrown}
use net_test_toy.Http.Wrapper.{
  Call, FetchOptions, Received, Response, answered_entry, as_blob, as_json, caught, ended,
  failed_entry, failed_response, fault_entry, fetch_wrapper, http_message, is_abort, is_ok, log,
  logged_then, read_response, received, responded, shown_body, timeout_fault, timeout_ms, told,
}
use net_test_toy.Http.History.{CallData}
use net_test_toy.Base.{
  Bool, Bool-cases, List, Option, String, [], ap, arith, false, inl, inr, leb, refl, sym, text_dec,
  true, ℕ, ◌&&◌, ◌<>◌, ◌==◌, ◌||◌, ◌∙◌, ◌∷◌, ◌≡◌, ◌⊎◌,
}
use net_test_toy.Base.Texts.{decimal}

is_returned-and_then :
    {A B : Type 0} (o : Outcome A) (k : A → Outcome B)
    → ((a : A) → is_returned (k a) ≡ true)
    → is_returned (and_then o k) ≡ is_returned o
is_returned-and_then (returned a) k h = h a
is_returned-and_then (thrown f) k h = refl

pub is_returned-cases :
    {A : Type 0} (o : Outcome A) → ((a : A) × (o ≡ returned a)) ⊎ ((f : Fault) × (o ≡ thrown f))
is_returned-cases (returned a) = inl (a, refl)
is_returned-cases (thrown f) = inr (f, refl)

and_false : (b : Bool) → (b && false) ≡ false
and_false true = refl
and_false false = refl

abbrev pub aborted : {A : Type 0} → Outcome A → Bool
aborted (returned a) = false
aborted (thrown f) = is_abort f

module _ (parse : String → Outcome Json) (options : FetchOptions) (url : String) where
  -- Whether the content of a response can be read: an empty text counts as `null`
  abbrev pub has_content : Response → Bool
  has_content r = elim options.response_type [
    | as_blob ↦ is_returned r.blob_size
    | as_json ↦ elim r.content [ thrown f ↦ false | returned t ↦ t == "" || is_returned (parse t) ]
  ]

  -- Whether what is logged of the call can be made
  abbrev pub can_log : Bool
  can_log = options.suppress_logs || is_returned (shown_body parse options url)

  -- A good response, without content or with content that can be read, to a call that can be logged
  abbrev pub answers : Outcome Response → Bool
  answers (thrown f) = false
  answers (returned r) =
      can_log && (is_ok r && (leb r.status 204 && leb 204 r.status || has_content r))

  -- A call that is not to be logged leaves nothing; another one leaves the entry with its body, or
  -- throws what the reading of the body throws.
  pub log-cases :
      (c : CallData)
      → (log parse options url c ≡ returned [])
        ⊎ (((b : Option Json) × (log parse options url c ≡ returned (record c { body = b } ∷ [])))
            ⊎ ((g : Fault) × (log parse options url c ≡ thrown g)))
  log-cases c = elim (Bool-cases options.suppress_logs) [
    | inl quiet ↦ inl (ground (arith, quiet))
    | inr loud ↦ inr (elim (is_returned-cases (shown_body parse options url)) [
      | inl (b, e) ↦ inl (b, rw (loud, e) refl)
      | inr (g, e) ↦ inr (g, rw (loud, e) refl)
    ])
  ]

  is_returned-ended :
      (f : Fault) (o : Outcome (List CallData))
      → is_returned (ended parse options url f o).outcome ≡ false
  is_returned-ended f (returned es) = refl
  is_returned-ended f (thrown g) = refl

  pub is_returned-caught :
      (late : ℕ) (f : Fault) → is_returned (caught parse options url late f).outcome ≡ false
  unfolding caught told
  is_returned-caught late f = ground (
    arith,
    is_returned-ended (timeout_fault parse options url) (
        log parse options url
          (fault_entry parse options url late (timeout_fault parse options url))),
    is_returned-ended f (log parse options url (fault_entry parse options url late f)),
  )

  is_returned-logged_then :
      (late : ℕ) (after : List CallData → Call) (b : Bool) (o : Outcome (List CallData))
      → ((es : List CallData) → is_returned (after es).outcome ≡ b)
      → is_returned (logged_then parse options url late after o).outcome ≡ (is_returned o && b)
  unfolding logged_then
  is_returned-logged_then late after b (returned es) h = h es
  is_returned-logged_then late after b (thrown g) h = is_returned-caught late g

  is_returned-log : (c : CallData) → is_returned (log parse options url c) ≡ can_log
  is_returned-log c = elim (Bool-cases options.suppress_logs) [
    | inl quiet ↦ rw quiet refl
    | inr told ↦ rw told (is_returned-and_then (shown_body parse options url) _ (λ b. refl))
  ]

  is_returned-received :
      (d late : ℕ) (r : Response) (o : Outcome (Json × Received))
      → is_returned (received parse options url d late r o).outcome ≡ (can_log && is_returned o)
  unfolding received
  is_returned-received d late r (returned (shown, v)) =
      is_returned-logged_then late _ true
        (log parse options url (answered_entry parse options url d r shown)) (λ es. refl)
      ∙ ap (λ b. b && true) (is_returned-log (answered_entry parse options url d r shown))
  is_returned-received d late r (thrown f) = is_returned-caught late f ∙ sym (and_false can_log)

  is_returned-read_response :
      (r : Response)
      → is_returned (read_response parse options url r)
        ≡ (leb r.status 204 && leb 204 r.status || has_content r)
  unfolding read_response
  is_returned-read_response r = ground arith

  pub is_returned-fetch_wrapper :
      (d late : ℕ) (fetched : Outcome Response)
      → is_returned (fetch_wrapper parse options url d late fetched).outcome ≡ answers fetched
  unfolding fetch_wrapper responded failed_response
  is_returned-fetch_wrapper d late (thrown f) = is_returned-caught late f
  is_returned-fetch_wrapper d late (returned r) = elim (Bool-cases (is_ok r)) [
    | inl ok ↦ rw ok (
        is_returned-received d late r (read_response parse options url r)
        ∙ ap (λ b. can_log && b) (is_returned-read_response r))
    | inr bad ↦ rw bad (
        is_returned-logged_then late _ false
          (log parse options url (failed_entry parse options url d r))
          (λ es. is_returned-caught late (error "Error" (http_message r)))
        ∙ (and_false _ ∙ sym (and_false can_log)))
  ]

  is_abort-ended :
      (f : Fault) (c : CallData)
      → can_log ≡ true
      → is_abort f ≡ false
      → aborted (ended parse options url f (log parse options url c)).outcome ≡ false
  is_abort-ended f c l h = elim (is_returned-cases (log parse options url c)) [
    | inl (es, e) ↦ rw e h
    | inr (g, e) ↦ absurd (ground (arith, is_returned-log c, e, l))
  ]

  aborted-caught :
      (late : ℕ) (f : Fault)
      → can_log ≡ true
      → aborted (caught parse options url late f).outcome ≡ false
  unfolding caught told timeout_fault text_dec
  aborted-caught late f l = elim (Bool-cases (is_abort f)) [
    | inl e ↦ rw e (
        is_abort-ended (timeout_fault parse options url)
          (fault_entry parse options url late (timeout_fault parse options url)) l refl)
    | inr e ↦ ground (arith, e, is_abort-ended f (fault_entry parse options url late f) l e)
  ]

  aborted-logged_then :
      (late : ℕ) (after : List CallData → Call) (o : Outcome (List CallData))
      → can_log ≡ true
      → ((es : List CallData) → aborted (after es).outcome ≡ false)
      → aborted (logged_then parse options url late after o).outcome ≡ false
  unfolding logged_then
  aborted-logged_then late after (returned es) l h = h es
  aborted-logged_then late after (thrown g) l h = aborted-caught late g l

  aborted-received :
      (d late : ℕ) (r : Response) (o : Outcome (Json × Received))
      → can_log ≡ true
      → aborted (received parse options url d late r o).outcome ≡ false
  unfolding received
  aborted-received d late r (returned (shown, v)) l =
      aborted-logged_then late _
        (log parse options url (answered_entry parse options url d r shown)) l (λ es. refl)
  aborted-received d late r (thrown f) l = aborted-caught late f l

  pub aborted-fetch_wrapper :
      (d late : ℕ) (fetched : Outcome Response)
      → can_log ≡ true
      → aborted (fetch_wrapper parse options url d late fetched).outcome ≡ false
  unfolding fetch_wrapper responded failed_response
  aborted-fetch_wrapper d late (thrown f) l = aborted-caught late f l
  aborted-fetch_wrapper d late (returned r) l = elim (Bool-cases (is_ok r)) [
    | inl ok ↦ rw ok (aborted-received d late r (read_response parse options url r) l)
    | inr bad ↦ rw bad (
        aborted-logged_then late _ (log parse options url (failed_entry parse options url d r)) l
          (λ es. aborted-caught late (error "Error" (http_message r)) l))
  ]

  ended-log :
      (f : Fault) (c : CallData)
      → can_log ≡ true
      → (ended parse options url f (log parse options url c)).outcome ≡ thrown f
  ended-log f c l = elim (is_returned-cases (log parse options url c)) [
    | inl (es, e) ↦ rw e refl
    | inr (g, e) ↦ absurd (ground (arith, is_returned-log c, e, l))
  ]

  -- An aborted call that can be logged ends as a timeout after the call's own time.
  pub fetch_wrapper-aborted :
      (d late : ℕ) (message : String)
      → can_log ≡ true
      → (fetch_wrapper parse options url d late (thrown (error "AbortError" message))).outcome
        ≡ thrown (
            error "TimeoutError"
              ("Request timed out after " <> (decimal (timeout_ms parse options url) <> "ms")))
  unfolding fetch_wrapper caught told timeout_fault text_dec
  fetch_wrapper-aborted d late message l =
      ended-log (timeout_fault parse options url)
        (fault_entry parse options url late (timeout_fault parse options url)) l
