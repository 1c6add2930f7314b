-- ===== src/Exec/Sizes.antt =====
-- The queue of sizes holds eight at most.
use ani_session_gateway.Prelude.{
  Bool, ◌≤◌, true, false, ◌&&◌, ◌||◌, ◌==◌, ltb, if-both, if◌then◌else◌, List, [], ◌∷◌, length,
  length-append, arith,
}
use ani_session_gateway.Session.Model.{TerminalSize}
use ani_session_gateway.Exec.{
  Ended, ExecStream, new_exec_stream, resize, next_size, first_size, terminate, finish,
}

-- What a client or the executor does with a stream.
pub data Use : Type 0 where
  resizes : TerminalSize → Use
  takes : Use
  closes : Use
  ends : Ended → Use

after : Use → ExecStream → ExecStream
unfolding resize next_size terminate finish
after (resizes size) s = (resize size s).1
after takes s = (next_size s).1
after closes s = terminate s
after (ends how) s = finish how s

run : List Use → ExecStream → ExecStream
unfolding after
run [] s = s
run (u ∷ us) s = run us (after u s)

abbrev IsBounded : ExecStream → Type 0
IsBounded s = length s.sizes ≤ 8

abbrev Leaves {ℓ} : {A : Type ℓ} → A × ExecStream → Type 0
Leaves x = IsBounded x.1

first_size-IsBounded :
    (l : List TerminalSize) (s : ExecStream)
    → length l ≤ 8
    → IsBounded s
    → IsBounded (first_size l s).1
first_size-IsBounded [] s p q = q
first_size-IsBounded (x ∷ l) s p q = omega arith

after-IsBounded : (u : Use) (s : ExecStream) → IsBounded s → IsBounded (after u s)
unfolding after
after-IsBounded (resizes size) s h =
    unfold resize in
    if-both Leaves (size.rows == 0 || size.cols == 0) (λ _. h)
      (λ _.
        if-both Leaves s.terminated (λ _. h)
          (λ _.
            if-both Leaves (ltb (length s.sizes) 8)
              (λ e. ground (arith, length-append s.sizes (size ∷ []))) (λ _. h)))
after-IsBounded takes s h =
    unfold next_size in
    if-both Leaves s.terminated (λ _. h) (λ _. first_size-IsBounded s.sizes s h h)
after-IsBounded closes s h = unfold terminate in h
after-IsBounded (ends how) s h = unfold finish in unfold terminate in h

run-IsBounded : (us : List Use) (s : ExecStream) → IsBounded s → IsBounded (run us s)
unfolding run
run-IsBounded [] s h = h
run-IsBounded (u ∷ us) s h = run-IsBounded us (after u s) (after-IsBounded u s h)

-- Whatever happens to a new stream, at most eight sizes wait.
run_new-IsBounded :
    (initial : TerminalSize) (us : List Use) → IsBounded (run us (new_exec_stream initial))
unfolding new_exec_stream
run_new-IsBounded initial us =
    run-IsBounded us _ (initially (ltb 0 initial.rows && ltb 0 initial.cols))
  where
    initially : (b : Bool) → length (if b then initial ∷ [] else []) ≤ 8
    initially true = omega arith
    initially false = omega arith
