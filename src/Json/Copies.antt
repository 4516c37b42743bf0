-- ===== src/Json/Copies.antt =====
-- The copies of `JsonValue` of middleware/src/nonworking_json.cpp, with the null pointers that a move
-- leaves behind. What is undefined, as to copy from a null pointer or from a destroyed value, is `none`.
pub mod Assignment
mod Tests
use cpp_examples.Prelude.{
  ℕ, zero, suc, Bool, true, false, ◌&&◌, Option, none, some, List, [], ◌∷◌, if◌then◌else◌, ◌>>=◌,
}
use cpp_examples.Prelude.Int.{ℤ}

-- The alternatives of the member `data`; the last two are null pointers to an array and to an object.
mutual
  pub data JsonData (Double : Type 0) : Type 0 where
    null : JsonData Double
    boolean : Bool → JsonData Double
    long : ℤ → JsonData Double
    double : Double → JsonData Double
    string : List ℕ → JsonData Double
    array : DataArray Double → JsonData Double
    object : DataObject Double → JsonData Double
    null_array null_object : JsonData Double

  pub data DataArray (Double : Type 0) : Type 0 where
    nil : DataArray Double
    cons : JsonData Double → DataArray Double → DataArray Double

  pub data DataObject (Double : Type 0) : Type 0 where
    end : DataObject Double
    entry : List ℕ → JsonData Double → DataObject Double → DataObject Double

-- What `const JsonValue& other` refers to: a value of its own, or one that `*this` holds.
pub data Reference (Double : Type 0) : Type 0 where
  outside : JsonData Double → Reference Double
  inside : List ℕ → Reference Double

module _ {Double : Type 0} where
  -- The copy constructor, with those of `std::vector` and `std::map`.
  unfoldable mutual
    pub copy : JsonData Double → Option (JsonData Double)
    copy null = some null
    copy (boolean b) = some (boolean b)
    copy (long i) = some (long i)
    copy (double d) = some (double d)
    copy (string s) = some (string s)
    copy (array arr) = do items ← copy_array arr; some (array items)
    copy (object obj) = do entries ← copy_object obj; some (object entries)
    copy null_array = none
    copy null_object = none

    pub copy_array : DataArray Double → Option (DataArray Double)
    copy_array nil = some nil
    copy_array (cons item rest) = do
      first ← copy item
      others ← copy_array rest
      some (cons first others)

    pub copy_object : DataObject Double → Option (DataObject Double)
    copy_object end = some end
    copy_object (entry key value rest) = do
      first ← copy value
      others ← copy_object rest
      some (entry key first others)

  -- The move constructor: the new value and what is left of the old one. `left` is what a move leaves
  -- of a `std::string`.
  unfoldable pub move_construct :
      (List ℕ → List ℕ) → JsonData Double → JsonData Double × JsonData Double
  move_construct left null = (null, null)
  move_construct left (boolean b) = (boolean b, boolean b)
  move_construct left (long i) = (long i, long i)
  move_construct left (double d) = (double d, double d)
  move_construct left (string s) = (string s, string (left s))
  move_construct left (array arr) = (array arr, null_array)
  move_construct left (object obj) = (object obj, null_object)
  move_construct left null_array = (null_array, null_array)
  move_construct left null_object = (null_object, null_object)

  abbrev pub item_at : DataArray Double → ℕ → Option (JsonData Double)
  item_at nil i = none
  item_at (cons item rest) zero = some item
  item_at (cons item rest) (suc i) = item_at rest i

  abbrev pub entry_at : DataObject Double → ℕ → Option (JsonData Double)
  entry_at end i = none
  entry_at (entry key value rest) zero = some value
  entry_at (entry key value rest) (suc i) = entry_at rest i

  abbrev pub held_at : JsonData Double → ℕ → Option (JsonData Double)
  held_at (array arr) i = item_at arr i
  held_at (object obj) i = entry_at obj i
  held_at _ i = none

  -- The value that a path of positions leads to.
  abbrev pub held_below : JsonData Double → List ℕ → Option (JsonData Double)
  held_below self [] = some self
  held_below self (i ∷ path) = elim (held_at self i) [
    | none ↦ none
    | some below ↦ held_below below path
  ]

  -- A read through the reference, where `*this` may hold nothing, as its data is destroyed.
  unfoldable pub read_other : Option (JsonData Double) → Reference Double → Option (JsonData Double)
  read_other this (outside other) = some other
  read_other this (inside path) = do self ← this; held_below self path

  -- Whether two values hold the same one of the alternatives up to `double`.
  unfoldable pub same_scalar : JsonData Double → JsonData Double → Bool
  same_scalar null null = true
  same_scalar (boolean a) (boolean b) = true
  same_scalar (long a) (long b) = true
  same_scalar (double a) (double b) = true
  same_scalar _ _ = false

  -- `data = arg` for an alternative up to `double`, whose copy does not throw: `std::variant` assigns
  -- to the same alternative, and otherwise destroys what it holds before it constructs.
  unfoldable pub assign_scalar :
      JsonData Double → JsonData Double → Reference Double → Option (JsonData Double)
  assign_scalar self value other =
      if same_scalar self value then read_other (some self) other else read_other none other

  -- The visit of `other.data`. The copy of a string, an array or an object is made before the old data
  -- goes.
  unfoldable pub assign_visited :
      JsonData Double → JsonData Double → Reference Double → Option (JsonData Double)
  assign_visited self (string s) other = some (string s)
  assign_visited self (array arr) other = copy (array arr)
  assign_visited self (object obj) other = copy (object obj)
  assign_visited self null_array other = none
  assign_visited self null_object other = none
  assign_visited self value other = assign_scalar self value other

  -- `operator=`: what `*this` is afterwards.
  unfoldable pub assign : JsonData Double → Reference Double → Option (JsonData Double)
  assign self (inside []) = some self
  assign self other = do value ← read_other (some self) other; assign_visited self value other
