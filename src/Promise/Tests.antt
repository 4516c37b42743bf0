-- ===== src/Promise/Tests.antt =====
-- The chain of `test_then` in cjunk/practice/chainablePromise.cc, and a tree of three promises.
use cpp_examples.Prelude.{ℕ, ◌+◌, ◌*◌, ◌≡◌, refl, [], ◌∷◌, ◌++◌}
use cpp_examples.Promise.{
  Promise, make_runnable, push_back, then_promise, then_runnable, run_async, call, then_then,
}
use cpp_examples.Promise.Chain.{call-then_then}

unfoldable successor : Promise ℕ
successor = make_runnable (λ i. i + 1)

unfoldable double_after : Promise ℕ
double_after = let (after, returned) = then_runnable successor (λ i. i * 2) in after

preorder : call (then_then double_after (λ i. i * 3) (λ i. 0)) 1 ≡ (1, 2) ∷ (2, 4) ∷ (2, 6) ∷ []
unfolding call then_then then_runnable then_promise make_runnable push_back double_after successor
preorder = refl

call-then_then_example :
    call (then_then (make_runnable (λ i. i + 5)) (λ i. i + 1) (λ i. 0)) 1
    ≡ call (make_runnable (λ i. i + 5)) 1
      ++ (run_async (make_runnable (λ i. i + 5)) 1, run_async (make_runnable (λ i. i + 5)) 1 + 1)
        ∷ []
call-then_then_example = call-then_then (make_runnable (λ i. i + 5)) (λ i. i + 1) (λ i. 0) 1
