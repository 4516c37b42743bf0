-- ===== src/Promise.antt =====
-- `ChainablePromise` of cjunk/practice/chainablePromise.cc. A promise owns its children: `then` keeps a
-- copy of the one that it returns. A run gives the argument and the result of each call of a functor,
-- in the order of the calls; `runAsync` is one such call.
pub mod Chain
mod Tests
use cpp_examples.Prelude.{List, [], ◌∷◌, ◌++◌}

-- `m_functor` and `m_children`
mutual
  pub data Promise (T : Type 0) : Type 0 where
    promise : (T → T) → Children T → Promise T

  pub data Children (T : Type 0) : Type 0 where
    none : Children T
    child : Promise T → Children T → Children T

-- The constructors.
unfoldable pub make_promise : {T : Type 0} → Promise T
make_promise = promise (λ arg. arg) none

unfoldable pub make_runnable : {T : Type 0} → (T → T) → Promise T
make_runnable functor = promise functor none

unfoldable pub push_back : {T : Type 0} → Children T → Promise T → Children T
push_back none p = child p none
push_back (child c rest) p = child c (push_back rest p)

-- `then`: the promise after the call, and the copy that it returns.
unfoldable pub then_promise : {T : Type 0} → Promise T → Promise T → Promise T × Promise T
then_promise (promise functor children) p = (promise functor (push_back children p), p)

unfoldable pub then_runnable : {T : Type 0} → Promise T → (T → T) → Promise T × Promise T
then_runnable self on_success = then_promise self (make_runnable on_success)

unfoldable pub run_async : {T : Type 0} → Promise T → T → T
run_async (promise functor children) arg = functor arg

-- `operator()`
unfoldable mutual
  pub call : {T : Type 0} → Promise T → T → List (T × T)
  call (promise functor children) arg =
      let result = functor arg in (arg, result) ∷ call_children children result

  pub call_children : {T : Type 0} → Children T → T → List (T × T)
  call_children none result = []
  call_children (child c rest) result = call c result ++ call_children rest result

-- The promise of `test_then`, with the functors as arguments: `p.then(f).then(g)`.
unfoldable pub then_then : {T : Type 0} → Promise T → (T → T) → (T → T) → Promise T
then_then p f g =
    let (after, returned) = then_runnable p f in
    let (changed, last) = then_runnable returned g in after
