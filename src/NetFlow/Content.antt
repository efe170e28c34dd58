-- ===== src/NetFlow/Content.antt =====
-- What netflowSlice.ts keeps of the records that arrive.
use net_test_toy.NetFlow.{
  Action, NetFlowState, add_record, reduce, set_max_buffer_size, set_streaming_enabled,
}
use net_test_toy.Base.{
  Bool, List, String, [], ap, arith, false, if◌then◌else◌, length, refl, take, true, ℕ, ◌∙◌, ◌∷◌,
  ◌≡◌, ◌≤◌,
}
use net_test_toy.Base.Buffer.{cut, length-cut, newest_first, push_all, push_all-take}

module _ {P : Type 0} where
  abbrev pub IsBounded : NetFlowState P → Type 0
  IsBounded s = length s.stream_buffer ≤ s.max_buffer_size

  abbrev pub is_resize : Action P → Bool
  is_resize (set_max_buffer_size n) = true
  is_resize _ = false

module _ {P : Type 0} (no_filter : P) where
  -- Records that arrive one after the other, the oldest first.
  abbrev pub add_all : String → List P → NetFlowState P → NetFlowState P
  add_all now [] s = s
  add_all now (r ∷ rs) s = add_all now rs (reduce no_filter (add_record now r) s)

  records-push_all :
      (now : String) (rs : List P) (s : NetFlowState P)
      → (add_all now rs s).records ≡ push_all 10000 rs s.records
  unfolding reduce
  records-push_all now [] s = refl
  records-push_all now (r ∷ rs) s = records-push_all now rs (reduce no_filter (add_record now r) s)

  stream-push_all :
      (now : String) (rs : List P) (s : NetFlowState P)
      → s.streaming_enabled ≡ true
      → (add_all now rs s).stream_buffer ≡ push_all s.max_buffer_size rs s.stream_buffer
  unfolding reduce
  stream-push_all now [] s e = refl
  stream-push_all now (r ∷ rs) s e =
      stream-push_all now rs (reduce no_filter (add_record now r) s) e
      ∙ ap (push_all s.max_buffer_size rs) (rw e refl)

  -- While streaming is on, and where there are at most 10000 records and the stream buffer holds no
  -- more than it may, records that arrive one after the other are kept newest first: the newest 10000
  -- with the records, and as many in the stream buffer as it may hold.
  pub arrivals :
      (now : String) (rs : List P) (s : NetFlowState P)
      → s.streaming_enabled ≡ true
      → length s.records ≤ 10000
      → length s.stream_buffer ≤ s.max_buffer_size
      → ((add_all now rs s).records ≡ take 10000 (newest_first rs s.records))
        × ((add_all now rs s).stream_buffer
            ≡ take s.max_buffer_size (newest_first rs s.stream_buffer))
  arrivals now rs s e h k = (
    records-push_all now rs s ∙ push_all-take 10000 rs s.records h,
    stream-push_all now rs s e ∙ push_all-take s.max_buffer_size rs s.stream_buffer k,
  )

  length-stream :
      (b : Bool) (n : ℕ) (r : P) (buffer : List P)
      → length buffer ≤ n
      → length (if b then cut n (r ∷ buffer) else buffer) ≤ n
  length-stream true n r buffer h = length-cut n (r ∷ buffer)
  length-stream false n r buffer h = h

  length-switch :
      (b : Bool) (n : ℕ) (buffer : List P)
      → length buffer ≤ n
      → length (if b then buffer else []) ≤ n
  length-switch true n buffer h = h
  length-switch false n buffer h = omega arith

  -- The stream buffer stays within its size under every action but a change of that size.
  pub reduce-IsBounded :
      (a : Action P) (s : NetFlowState P)
      → is_resize a ≡ false
      → IsBounded s
      → IsBounded (reduce no_filter a s)
  unfolding reduce
  reduce-IsBounded (add_record now r) s e h =
      length-stream s.streaming_enabled s.max_buffer_size r s.stream_buffer h
  reduce-IsBounded (set_streaming_enabled b) s e h =
      length-switch b s.max_buffer_size s.stream_buffer h
  reduce-IsBounded a s e h = ground arith
