-- ===== src/Testing/History.antt =====
-- The history of networkTestingSlice.ts.
use mathlib.Core.List.{append-nil, append_assoc}
use net_test_toy.Testing.{
  Action, TestResult, TestingState, Tool, append_test_output, failed, finish_test, finished, reduce,
  result_of, run, set_test_error, start_test, test_finished, test_started,
}
use net_test_toy.Base.{
  List, Option, String, [], ap, arith, false, map, none, some, sym, take, ◌++◌, ◌∙◌, ◌∷◌, ◌≡◌, ◌≢◌,
}
use net_test_toy.Storage.{truthy}
use net_test_toy.Base.Buffer.{cut-take}

abbrev pub record_of :
    String → Tool → String → String → List String → Option String → String → TestResult
record_of id tool source target lines e now = record {
  id = id;
  tool = some tool;
  source_ip = some source;
  target_ip = some target;
  start_time = now;
  end_time = none;
  status = elim (truthy e) [ none ↦ finished | some m ↦ failed ];
  output = lines;
  error = truthy e;
}

truthy_self : (t : String) → t ≢ "" → truthy (some t) ≡ some t
truthy_self t h = ground arith

module _ {P : Type 0} where
  abbrev pub outputs : List String → List (Action P)
  outputs [] = []
  outputs (l ∷ ls) = append_test_output l ∷ outputs ls

  abbrev pub fails : Option String → List (Action P)
  fails none = []
  fails (some e) = set_test_error e ∷ []

  -- A test from its start to its end: lines of output, an error or none, and the end.
  abbrev pub whole_test :
      String → Tool → String → String → List String → Option String → String → List (Action P)
  whole_test id tool source target lines e now =
      start_test id tool source target ∷ outputs lines ++ (fails e ++ finish_test now ∷ [])

  abbrev with_output : List String → TestingState P → TestingState P
  with_output o s = let c = s.current_test in record s { current_test = record c { output = o } }

  run-outputs :
      (ls : List String) (as' : List (Action P)) (s : TestingState P)
      → run (outputs ls ++ as') s ≡ run as' (with_output (s.current_test.output ++ ls) s)
  unfolding run reduce
  run-outputs [] as' s =
      ap (λ o. run as' (with_output o s)) (sym (append-nil s.current_test.output))
  run-outputs (l ∷ ls) as' s =
      run-outputs ls as' (reduce (append_test_output l) s)
      ∙ ap (λ o. run as' (with_output o s)) (append_assoc s.current_test.output (l ∷ []) ls)

  finish_test_lem :
      (id now : String) (s : TestingState P)
      → truthy s.current_test.id ≡ some id
      → (reduce (finish_test now) s).test_history
        ≡ take 50 (result_of now id s.current_test ∷ s.test_history)
  unfolding reduce test_finished
  finish_test_lem id now s h =
      ground (arith, h, cut-take 50 (result_of now id s.current_test ∷ s.test_history))

  -- A test with a name that runs from its start to its end is recorded in front of the history with
  -- its parameters, every line of its output in order and its error if it has one; at most the 50
  -- newest records stay, and no test is running.
  pub test_history-whole_test :
      (id : String) (tool : Tool) (source target : String) (lines : List String) (e : Option String)
      (now : String) (s : TestingState P)
      → id ≢ ""
      → let t = run (whole_test id tool source target lines e now) s in
        (t.test_history ≡ take 50 (record_of id tool source target lines e now ∷ s.test_history))
        × (t.current_test.is_running ≡ false)
  unfolding run reduce test_finished test_started
  test_history-whole_test id tool source target lines none now s h =
      let started = reduce (start_test id tool source target) s in
      let e = run-outputs lines (finish_test now ∷ []) started in
      (
        ap (λ t. t.test_history) e
            ∙ finish_test_lem id now (with_output lines started) (truthy_self id h),
        ap (λ t. t.current_test.is_running) e,
      )
  test_history-whole_test id tool source target lines (some m) now s h =
      let started = reduce (start_test id tool source target) s in
      let e = run-outputs lines (set_test_error m ∷ finish_test now ∷ []) started in
      (
        ap (λ t. t.test_history) e
            ∙ finish_test_lem id now (reduce (set_test_error m) (with_output lines started))
                (truthy_self id h),
        ap (λ t. t.current_test.is_running) e,
      )

  -- Two ends of one test, whose name is not empty, put two records with its name in front of the
  -- history.
  pub finish_test_twice :
      (id now later : String) (s : TestingState P)
      → truthy s.current_test.id ≡ some id
      → take 2 (map (λ r. r.id) (run (finish_test now ∷ finish_test later ∷ []) s).test_history)
        ≡ id ∷ id ∷ []
  unfolding run reduce test_finished
  finish_test_twice id now later s h =
      let t = reduce (finish_test now) s in
      ap (λ rs. take 2 (map (λ r. r.id) rs)) (finish_test_lem id later t h)
      ∙ ap (λ rs. id ∷ take 1 (map (λ r. r.id) (take 49 rs))) (finish_test_lem id now s h)
