-- ===== src/Memory.antt =====
-- A block of memory as the list of its bytes, and `memcpy` into it and out of it. A byte outside of
-- the block is undefined behaviour, here `none`.
use cpp_examples.Prelude.{
  ℕ, zero, suc, ◌+◌, ◌<◌, ◌≤◌, ◌≡◌, ◌∙◌, refl, ap, Option, none, some, List, [], ◌∷◌, ◌⊎◌, inl,
  arith, length, get_elem?, set, ltb, lt→ltb, if◌then◌else◌, ◌>>=◌, length-set, get_elem?-set_self,
  get_elem?-set_ne, get_elem?_total,
}

-- `memcpy(&memory[offset], bytes, …)`
unfoldable pub copy_in : List ℕ → ℕ → List ℕ → Option (List ℕ)
copy_in memory offset [] = some memory
copy_in memory offset (b ∷ bytes) =
    let rest = copy_in (set memory offset b) (offset + 1) bytes in
    if ltb offset (length memory) then rest else none

-- `memcpy(…, &memory[offset], count)`
unfoldable pub copy_out : List ℕ → ℕ → ℕ → Option (List ℕ)
copy_out memory offset zero = some []
copy_out memory offset (suc count) = do
  b ← get_elem? memory offset
  bytes ← copy_out memory (offset + 1) count
  some (b ∷ bytes)

-- Two memories that agree on a stretch give the same bytes from it.
pub copy_out-agree :
    (m m' : List ℕ) (offset count : ℕ)
    → ((i : ℕ) → offset ≤ i → i < offset + count → get_elem? m' i ≡ get_elem? m i)
    → copy_out m' offset count ≡ copy_out m offset count
unfolding copy_out
copy_out-agree m m' offset zero same = refl
copy_out-agree m m' offset (suc count) same =
    rw
      (
        same offset (omega arith) (omega arith),
        copy_out-agree m m' (offset + 1) count (λ i a b. same i (omega arith) (omega arith)),
      )
      refl

-- What a write in bounds leaves: the bytes where they belong, and the others as they were.
pub record Copied (m : List ℕ) (offset : ℕ) (bytes after : List ℕ) : Type 0 where
  pub same_length : length after ≡ length m
  pub outside :
      (i : ℕ) → (i < offset) ⊎ (offset + length bytes ≤ i) → get_elem? after i ≡ get_elem? m i
  pub inside : copy_out after offset (length bytes) ≡ some bytes

pub copy_in-Copied :
    (m : List ℕ) (offset : ℕ) (bytes : List ℕ)
    → offset + length bytes ≤ length m
    → (after : List ℕ) × ((copy_in m offset bytes ≡ some after) × Copied m offset bytes after)
unfolding copy_in copy_out
copy_in-Copied m offset [] h =
    (m, (refl, record { same_length = refl; outside = λ i a. refl; inside = refl }))
copy_in-Copied m offset (b ∷ bytes) h =
    let room : offset < length m = omega arith in
    let kept = length-set m offset b in
    let (after, (done, c)) =
      copy_in-Copied (set m offset b) (offset + 1) bytes (omega (arith, kept)) in
    let first : get_elem? after offset ≡ some b =
      c.outside offset (inl (omega arith)) ∙ get_elem?-set_self m offset b room in
    (
      after,
      (
        rw (lt→ltb offset (length m) room, done) refl,
        record {
          same_length = c.same_length ∙ kept;
          outside = λ i a. c.outside i (omega (arith, a)) ∙ get_elem?-set_ne m b (λ e. omega arith);
          inside = rw (first, c.inside) refl;
        },
      ),
    )

-- A write that leaves the block fails.
pub copy_in-overrun :
    (m : List ℕ) (offset : ℕ) (bytes : List ℕ)
    → length m < offset + length bytes
    → 0 < length bytes
    → copy_in m offset bytes ≡ none
unfolding copy_in
copy_in-overrun m offset [] h i = absurd (omega arith)
copy_in-overrun m offset (b ∷ []) h i = ground arith
copy_in-overrun m offset (b ∷ c ∷ bytes) h i =
    let kept = length-set m offset b in
    rw
      (copy_in-overrun (set m offset b) (offset + 1) (c ∷ bytes) (omega (arith, kept))
        (omega arith))
      (ground arith)

-- A read in bounds gives as many bytes as it asks for.
pub copy_out_total :
    (m : List ℕ) (offset count : ℕ)
    → offset + count ≤ length m
    → (bytes : List ℕ) × ((copy_out m offset count ≡ some bytes) × (length bytes ≡ count))
unfolding copy_out
copy_out_total m offset zero h = ([], (refl, refl))
copy_out_total m offset (suc count) h =
    let (b, found) = get_elem?_total m offset (omega arith) in
    let (bytes, (done, size)) = copy_out_total m (offset + 1) count (omega arith) in
    (b ∷ bytes, (rw (found, done) refl, ap suc size))
