-- ===== src/Promise/Chain.antt =====
-- What a chain of cjunk/practice/chainablePromise.cc runs.
use cpp_examples.Prelude.{◌≡◌, ap, sym, [], ◌∷◌, ◌++◌, append_assoc, append-nil}
use cpp_examples.Promise.{
  Promise, Children, promise, none, child, make_runnable, push_back, then_promise, then_runnable,
  run_async, call, call_children, then_then,
}

call_children-push_back :
    {T : Type 0} (children : Children T) (p : Promise T) (result : T)
    → call_children (push_back children p) result ≡ call_children children result ++ call p result
unfolding call_children push_back
call_children-push_back none p result = append-nil (call p result)
call_children-push_back (child c rest) p result =
    rw (call_children-push_back rest p result)
      (sym (append_assoc (call c result) (call_children rest result) (call p result)))

-- A run of p after `p.then(f).then(g)` is the run of p with one call more at its end, that of f on the
-- result of p's functor: g is never called.
pub call-then_then :
    {T : Type 0} (p : Promise T) (f g : T → T) (arg : T)
    → call (then_then p f g) arg ≡ call p arg ++ (run_async p arg, f (run_async p arg)) ∷ []
unfolding call then_then then_runnable then_promise make_runnable run_async
call-then_then (promise functor children) f g arg =
    ap (λ more. (arg, functor arg) ∷ more)
      (call_children-push_back children (make_runnable f) (functor arg))
