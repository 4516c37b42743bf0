-- ===== src/Fifo/Refines.antt =====
-- The ring of cjunk/ringBuffer.h against a queue as a list: oldest value first, at most `n - 1` of
-- them.
use cpp_examples.Prelude.{
  ℕ, ◌+◌, ◌%◌, ◌^◌, ◌<◌, ◌≤◌, ◌≡◌, ◌≢◌, ◌∙◌, refl, sym, ap, true, false, none, some, List, [], ◌∷◌,
  ◌++◌, arith, length, get_elem?, set, ltb, leb, ◌==◌, if◌then◌else◌, lt→ltb, dec_lt, subst,
  length-append, length-set, get_elem?-set_self, get_elem?-set_ne, suc,
}
use cpp_examples.Fifo.{
  Fifo, success, failure, init, is_empty, size, store, push, load, pop, Call, push_call, pop_call,
  size_call, is_empty_call, Answer, pushed, popped, sized, tested, call_ring, run_ring,
  distance_value,
}
use cpp_examples.Fifo.Ring.{
  slot, slot-of_lt, slot-bounded, advanced, distance-slot, distance-some, Holds, Holds-keep,
  Holds-next, Holds-append,
}

-- The same calls on the list.
unfoldable pub call_queue : {T : Type 0} → ℕ → List T → Call T → Answer T × List T
call_queue n xs (push_call x) =
    if ltb (length xs + 1) n then (pushed success, xs ++ x ∷ []) else (pushed failure, xs)
call_queue n [] pop_call = (popped failure none, [])
call_queue n (x ∷ xs) pop_call = (popped success (some x), xs)
call_queue n xs size_call = (sized (length xs), xs)
call_queue n xs is_empty_call = (tested (length xs == 0), xs)

unfoldable pub run_queue : {T : Type 0} → ℕ → List T → List (Call T) → List (Answer T)
run_queue n xs [] = []
run_queue n xs (c ∷ cs) = let (answer, after) = call_queue n xs c in answer ∷ run_queue n after cs

module _ {T : Type 0} (n : ℕ) where
  -- The ring holds the values of the list, and its indices and its cells are in order.
  pub record Represents (fifo : Fifo T) (xs : List T) : Type 0 where
    pub small : n ≤ 2 ^ 30
    pub room : length xs < n
    pub cell_count : length (fifo.cells) ≡ n
    pub tail_bound : fifo.tail < n
    pub head_place : fifo.head ≡ slot n (fifo.tail + length xs)
    pub held : Holds n (get_elem? (fifo.cells)) (fifo.tail) xs

  size-length : (fifo : Fifo T) (xs : List T) → Represents fifo xs → size n fifo ≡ some (length xs)
  unfolding size
  size-length fifo xs r =
      let some_cell : 0 < n = let a = r.room in omega arith in
      let held_by_int = distance-some n (fifo.head) (fifo.tail) some_cell (r.small) in
      let count : distance_value n (fifo.head) (fifo.tail) % n ≡ length xs =
        ap (λ h. distance_value n h (fifo.tail) % n) (r.head_place)
        ∙ distance-slot n (fifo.tail) (length xs) (r.tail_bound) (r.room) in
      rw (held_by_int, count) refl

  is_empty-length :
      (fifo : Fifo T) (xs : List T) → Represents fifo xs → is_empty n fifo ≡ (length xs == 0)
  unfolding is_empty slot
  is_empty-length fifo xs r =
      let a = r.tail_bound in let b = r.room in let c = r.head_place in ground arith

  store-Represents :
      (fifo : Fifo T) (xs : List T) (x : T)
      → Represents fifo xs
      → length xs + 1 < n
      → (after : Fifo T) × (store n fifo x ≡ some (success, after))
        × Represents after (xs ++ x ∷ [])
  unfolding store
  store-Represents fifo xs x r h =
      let bound : fifo.tail + length xs + 1 < n + n =
        let a = r.tail_bound in let b = r.room in omega arith in
      let inside : fifo.head < length (fifo.cells) =
        rw (r.head_place, r.cell_count) (slot-bounded n (fifo.tail + length xs) (omega arith)) in
      let longer = length-append xs (x ∷ []) in
      let sum : fifo.tail + length (xs ++ x ∷ []) ≡ fifo.tail + length xs + 1 =
        omega (arith, longer) in
      let kept : (i : ℕ)
          → i < n
          → i ≢ slot n (fifo.tail + length xs)
          → get_elem? (set (fifo.cells) (fifo.head) x) i ≡ get_elem? (fifo.cells) i =
        λ i _ other. get_elem?-set_ne (fifo.cells) x (λ e. other (sym e ∙ r.head_place)) in
      (
        _,
        rw (lt→ltb _ _ inside) refl,
        record {
          small = r.small;
          room = omega (arith, longer);
          cell_count = length-set (fifo.cells) (fifo.head) x ∙ r.cell_count;
          tail_bound = r.tail_bound;
          head_place =
              advanced n (fifo.tail + length xs) (r.head_place) bound ∙ ap (slot n) (sym sum);
          held =
              Holds-append n (get_elem? (set (fifo.cells) (fifo.head) x)) xs (fifo.tail) x
                (Holds-keep n xs (fifo.tail) (fifo.tail + length xs) (omega arith) (omega arith)
                  kept (omega arith) (r.held))
                (rw (sym (r.head_place)) (get_elem?-set_self (fifo.cells) (fifo.head) x inside));
        },
      )

  push-Represents :
      (fifo : Fifo T) (xs : List T) (x : T)
      → Represents fifo xs
      → length xs + 1 < n
      → (after : Fifo T) × (push n fifo x ≡ some (success, after)) × Represents after (xs ++ x ∷ [])
  unfolding push
  push-Represents fifo xs x r h =
      let same = size-length fifo xs r in
      let fits : leb n (length xs + 1) ≡ false = ground arith in
      rw (same, fits) (store-Represents fifo xs x r h)

  push-full :
      (fifo : Fifo T) (xs : List T) (x : T)
      → Represents fifo xs
      → n ≤ length xs + 1
      → push n fifo x ≡ some (failure, fifo)
  unfolding push
  push-full fifo xs x r h =
      let same = size-length fifo xs r in
      let full : leb n (length xs + 1) ≡ true = ground arith in rw (same, full) refl

  pop-nil : (fifo : Fifo T) → Represents fifo [] → pop n fifo ≡ some (failure, none, fifo)
  unfolding pop
  pop-nil fifo r = rw (is_empty-length fifo [] r) refl

  pop-Represents :
      (fifo : Fifo T) (x : T) (xs : List T)
      → Represents fifo (x ∷ xs)
      → (after : Fifo T) × (pop n fifo ≡ some (success, some x, after)) × Represents after xs
  unfolding pop load
  pop-Represents fifo x xs r =
      let (here, more) = r.held in
      let room : suc (length xs) < n = r.room in
      let (below, place, rest) =
        Holds-next n (get_elem? (fifo.cells)) (fifo.head) (fifo.tail) xs (omega arith)
          (r.tail_bound) (r.head_place ∙ ap (slot n) (omega arith)) more in
      let nonempty : is_empty n fifo ≡ false = is_empty-length fifo (x ∷ xs) r ∙ ground arith in
      (
        _,
        rw
            (
              nonempty,
              load,
              subst (λ q. get_elem? (fifo.cells) q ≡ some x) (slot-of_lt (r.tail_bound)) here,
            )
            refl,
        record {
          small = r.small;
          room = omega (arith, room);
          cell_count = r.cell_count;
          tail_bound = below;
          head_place = place;
          held = rest;
        },
      )

  init-Represents :
      (fifo : Fifo T) → 0 < n → n ≤ 2 ^ 30 → length (fifo.cells) ≡ n → Represents (init n fifo) []
  unfolding init
  init-Represents fifo h small count = record {
    small = small;
    room = h;
    cell_count = count;
    tail_bound = h;
    head_place = sym (slot-of_lt h);
    held = tt;
  }

  -- One call gives the same answer, and what is left corresponds again.
  call_ring-refines :
      (fifo : Fifo T) (xs : List T) (c : Call T)
      → Represents fifo xs
      → (after : Fifo T) × (let (answer, ys) = call_queue n xs c in
          (call_ring n fifo c ≡ some (answer, after)) × Represents after ys)
  unfolding call_ring call_queue
  call_ring-refines fifo xs (push_call x) r = elim (dec_lt (length xs + 1) n) [
    | yes l ↦
        let (after, done, related) = push-Represents fifo xs x r l in
        rw (lt→ltb _ _ l, done) (after, (refl, related))
    | no l ↦
        let full : ltb (length xs + 1) n ≡ false = ground arith in
        rw (full, push-full fifo xs x r (omega (arith, l))) (fifo, (refl, r))
  ]
  call_ring-refines fifo [] pop_call r = rw (pop-nil fifo r) (fifo, (refl, r))
  call_ring-refines fifo (x ∷ xs) pop_call r =
      let (after, done, related) = pop-Represents fifo x xs r in rw done (after, (refl, related))
  call_ring-refines fifo xs size_call r = (fifo, (rw (size-length fifo xs r) refl, r))
  call_ring-refines fifo xs is_empty_call r = (fifo, (rw (is_empty-length fifo xs r) refl, r))

  run_ring-refines :
      (fifo : Fifo T) (xs : List T) (cs : List (Call T))
      → Represents fifo xs
      → run_ring n fifo cs ≡ some (run_queue n xs cs)
  unfolding run_ring run_queue
  run_ring-refines fifo xs [] r = refl
  run_ring-refines fifo xs (c ∷ cs) r =
      let (after, (done, related)) = call_ring-refines fifo xs c r in
      rw done (rw (run_ring-refines after _ cs related) refl)

  -- For every list of calls, a ring of `n` cells, `n` at least one and at most 2 ^ 30, that `init` has
  -- set up returns what a first-in, first-out list of at most `n - 1` values returns; no access is
  -- outside of the cells and no sum overflows.
  pub run_ring-init :
      (fifo : Fifo T) (cs : List (Call T))
      → 0 < n
      → n ≤ 2 ^ 30
      → length (fifo.cells) ≡ n
      → run_ring n (init n fifo) cs ≡ some (run_queue n [] cs)
  run_ring-init fifo cs h small count =
      run_ring-refines (init n fifo) [] cs (init-Represents fifo h small count)
