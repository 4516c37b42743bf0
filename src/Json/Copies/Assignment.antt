-- ===== src/Json/Copies/Assignment.antt =====
-- The copy assignment of `JsonValue` of middleware/src/nonworking_json.cpp.
use cpp_examples.Prelude.{
  ℕ, ◌≡◌, refl, Bool, true, false, ◌&&◌, Option, none, some, List, ◌∷◌, inl, inr, Bool-cases,
  if◌then◌else◌, ◌>>=◌,
}
use cpp_examples.Json.Copies.{
  JsonData, DataArray, DataObject, null, boolean, long, double, string, array, object, null_array,
  null_object, nil, cons, end, entry, outside, inside, copy, copy_array, copy_object,
  move_construct, held_below, read_other, same_scalar, assign_scalar, assign_visited, assign,
}

-- A value that is there if a test holds.
abbrev when {ℓ} : {A : Type ℓ} → Bool → A → Option A
when b a = if b then some a else none

when-bind :
    {A B : Type 0} (b : Bool) (a : A) (f : A → B) → (when b a >>= λ x. some (f x)) ≡ when b (f a)
when-bind true a f = refl
when-bind false a f = refl

when-both :
    {A B C : Type 0} (b c : Bool) (a : A) (d : B) (f : A → B → C)
    → (when b a >>= λ x. when c d >>= λ y. some (f x y)) ≡ when (b && c) (f a d)
when-both true true a d f = refl
when-both true false a d f = refl
when-both false c a d f = refl

module _ {Double : Type 0} where
  -- Whether a value has no null pointer, at any depth.
  unfoldable mutual
    pub is_whole : JsonData Double → Bool
    is_whole (array arr) = are_whole arr
    is_whole (object obj) = has_whole_entries obj
    is_whole null_array = false
    is_whole null_object = false
    is_whole _ = true

    pub are_whole : DataArray Double → Bool
    are_whole nil = true
    are_whole (cons item rest) = is_whole item && are_whole rest

    pub has_whole_entries : DataObject Double → Bool
    has_whole_entries end = true
    has_whole_entries (entry key value rest) = is_whole value && has_whole_entries rest

  -- Whether a value is an array or an object, and whether it is one of these or a string.
  abbrev pub is_pointer : JsonData Double → Bool
  is_pointer (array arr) = true
  is_pointer (object obj) = true
  is_pointer null_array = true
  is_pointer null_object = true
  is_pointer _ = false

  abbrev pub is_copied_first : JsonData Double → Bool
  is_copied_first (string s) = true
  is_copied_first v = is_pointer v

  mutual
    unfolding copy is_whole

    copy-when : (v : JsonData Double) → copy v ≡ when (is_whole v) v
    copy-when null = refl
    copy-when (boolean b) = refl
    copy-when (long i) = refl
    copy-when (double d) = refl
    copy-when (string s) = refl
    copy-when (array arr) = rw (copy_array-when arr) (when-bind (are_whole arr) arr array)
    copy-when (object obj) =
        rw (copy_object-when obj) (when-bind (has_whole_entries obj) obj object)
    copy-when null_array = refl
    copy-when null_object = refl

    copy_array-when : (vs : DataArray Double) → copy_array vs ≡ when (are_whole vs) vs
    copy_array-when nil = refl
    copy_array-when (cons v rest) =
        rw (copy-when v, copy_array-when rest) (when-both (is_whole v) (are_whole rest) v rest cons)

    copy_object-when : (vs : DataObject Double) → copy_object vs ≡ when (has_whole_entries vs) vs
    copy_object-when end = refl
    copy_object-when (entry key v rest) =
        rw (copy-when v, copy_object-when rest)
          (when-both (is_whole v) (has_whole_entries rest) v rest (entry key))

  assign_scalar-outside : (self v : JsonData Double) → assign_scalar self v (outside v) ≡ some v
  unfolding assign_scalar read_other
  assign_scalar-outside self v = elim (Bool-cases (same_scalar self v)) [
    | inl same ↦ rw same refl
    | inr other ↦ rw other refl
  ]

  assign-outside : (self v : JsonData Double) → assign self (outside v) ≡ when (is_whole v) v
  unfolding assign read_other assign_visited is_whole
  assign-outside self null = assign_scalar-outside self null
  assign-outside self (boolean b) = assign_scalar-outside self (boolean b)
  assign-outside self (long i) = assign_scalar-outside self (long i)
  assign-outside self (double d) = assign_scalar-outside self (double d)
  assign-outside self (string s) = refl
  assign-outside self (array arr) = copy-when (array arr)
  assign-outside self (object obj) = copy-when (object obj)
  assign-outside self null_array = refl
  assign-outside self null_object = refl

  -- A value that holds another one is no scalar.
  holder-differs :
      (self v : JsonData Double) (i : ℕ) (path : List ℕ)
      → held_below self (i ∷ path) ≡ some v
      → same_scalar self v ≡ false
  unfolding same_scalar
  holder-differs null v i path h = absurd cc
  holder-differs (boolean b) v i path h = absurd cc
  holder-differs (long j) v i path h = absurd cc
  holder-differs (double d) v i path h = absurd cc
  holder-differs (string s) v i path h = absurd cc
  holder-differs (array arr) v i path h = refl
  holder-differs (object obj) v i path h = refl
  holder-differs null_array v i path h = absurd cc
  holder-differs null_object v i path h = absurd cc

  assign_scalar-inside :
      (self v : JsonData Double) (i : ℕ) (path : List ℕ)
      → held_below self (i ∷ path) ≡ some v
      → assign_scalar self v (inside (i ∷ path)) ≡ none
  unfolding assign_scalar read_other
  assign_scalar-inside self v i path h = rw (holder-differs self v i path h) refl

  assign_visited-inside :
      (self v : JsonData Double) (i : ℕ) (path : List ℕ)
      → held_below self (i ∷ path) ≡ some v
      → assign_visited self v (inside (i ∷ path)) ≡ when (is_copied_first v && is_whole v) v
  unfolding assign_visited is_whole
  assign_visited-inside self null i path h = assign_scalar-inside self null i path h
  assign_visited-inside self (boolean b) i path h = assign_scalar-inside self (boolean b) i path h
  assign_visited-inside self (long j) i path h = assign_scalar-inside self (long j) i path h
  assign_visited-inside self (double d) i path h = assign_scalar-inside self (double d) i path h
  assign_visited-inside self (string s) i path h = refl
  assign_visited-inside self (array arr) i path h = copy-when (array arr)
  assign_visited-inside self (object obj) i path h = copy-when (object obj)
  assign_visited-inside self null_array i path h = refl
  assign_visited-inside self null_object i path h = refl

  assign-inside :
      (self v : JsonData Double) (i : ℕ) (path : List ℕ)
      → held_below self (i ∷ path) ≡ some v
      → assign self (inside (i ∷ path)) ≡ when (is_copied_first v && is_whole v) v
  unfolding assign read_other
  assign-inside self v i path h = rw h (assign_visited-inside self v i path h)

  assign-moved :
      (left : List ℕ → List ℕ) (self v : JsonData Double)
      → assign self (outside ((move_construct left v).1))
        ≡ (if is_pointer v then none else some ((move_construct left v).1))
  unfolding move_construct is_whole
  assign-moved left self null = assign-outside self null
  assign-moved left self (boolean b) = assign-outside self (boolean b)
  assign-moved left self (long i) = assign-outside self (long i)
  assign-moved left self (double d) = assign-outside self (double d)
  assign-moved left self (string s) = assign-outside self (string (left s))
  assign-moved left self (array arr) = assign-outside self null_array
  assign-moved left self (object obj) = assign-outside self null_object
  assign-moved left self null_array = assign-outside self null_array
  assign-moved left self null_object = assign-outside self null_object

  -- The copy assignment of a value from another one gives an equal value if the other one has no null
  -- pointer at any depth, and is undefined if it has one, as an array or an object has that was moved
  -- from. From a value that the assigned one holds, at any depth, it gives an equal value for a string,
  -- and for an array or an object without a null pointer; for null, a bool, an integer or a double it
  -- uses the value after its destruction, which is undefined.
  pub assign-is_whole :
      (left : List ℕ → List ℕ) (self other held : JsonData Double) (i : ℕ) (path : List ℕ)
      → held_below self (i ∷ path) ≡ some held
      → (assign self (outside other) ≡ (if is_whole other then some other else none))
        × (assign self (outside ((move_construct left other).1))
            ≡ (if is_pointer other then none else some ((move_construct left other).1)))
        × (assign self (inside (i ∷ path))
            ≡ (if is_copied_first held && is_whole held then some held else none))
  assign-is_whole left self other held i path h =
      (assign-outside self other, assign-moved left self other, assign-inside self held i path h)
