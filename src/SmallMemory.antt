-- ===== src/SmallMemory.antt =====
-- `JsonNode` of cjunk/trivialJson/SmallMemoryModel.cpp. A `unique_ptr` of a node owns what it points to,
-- so a node is a tree; a null pointer, which no constructor stores, is not modelled. A key and a string
-- is the list of its bytes.
pub mod Assignment
mod Tests
use cpp_examples.Prelude.{
  ℕ, zero, suc, ◌+◌, ◌-◌, Bool, true, false, Option, none, some, List, [], ◌∷◌, ◌++◌, length, leb,
  replicate, if◌then◌else◌,
}
use cpp_examples.Prelude.Int.{ℤ}

-- The alternatives of `Storage`.
mutual
  pub data JsonNode (Double : Type 0) : Type 0 where
    null : JsonNode Double
    boolean : Bool → JsonNode Double
    long : ℤ → JsonNode Double
    double : Double → JsonNode Double
    small : List ℕ → JsonNode Double
    string : List ℕ → JsonNode Double
    map : NodeMap Double → JsonNode Double
    list : NodeList Double → JsonNode Double

  pub data NodeList (Double : Type 0) : Type 0 where
    nil : NodeList Double
    node : JsonNode Double → NodeList Double → NodeList Double

  pub data NodeMap (Double : Type 0) : Type 0 where
    empty : NodeMap Double
    entry : List ℕ → JsonNode Double → NodeMap Double → NodeMap Double

-- A value, a use of something destroyed, or the exception `bad_variant_access`.
pub data Outcome (A : Type 0) : Type 0 where
  returned : A → Outcome A
  destroyed_use bad_access : Outcome A

infixl 1 ◌>>=◌
abbrev pub ◌>>=◌ : {A B : Type 0} → Outcome A → (A → Outcome B) → Outcome B
returned a >>= f = f a
destroyed_use >>= f = destroyed_use
bad_access >>= f = bad_access

abbrev pub or_destroyed : {A : Type 0} → Option A → Outcome A
or_destroyed none = destroyed_use
or_destroyed (some a) = returned a

-- What `const JsonNode& arg` refers to: a node of its own, or one that `*this` holds.
pub data Reference (Double : Type 0) : Type 0 where
  outside : JsonNode Double → Reference Double
  inside : List ℕ → Reference Double

module _ {Double : Type 0} where
  -- The constructor from a `string_view`.
  unfoldable pub make_text : List ℕ → JsonNode Double
  make_text sv = if leb (length sv) 8 then small (sv ++ replicate (8 - length sv) 0) else string sv

  -- The copy constructor, with those of `std::vector` and `std::map`.
  unfoldable mutual
    pub copy : JsonNode Double → JsonNode Double
    copy null = null
    copy (boolean b) = boolean b
    copy (long i) = long i
    copy (double d) = double d
    copy (small s) = small s
    copy (string s) = string s
    copy (map entries) = map (copy_map entries)
    copy (list nodes) = list (copy_list nodes)

    pub copy_list : NodeList Double → NodeList Double
    copy_list nil = nil
    copy_list (node n rest) = node (copy n) (copy_list rest)

    pub copy_map : NodeMap Double → NodeMap Double
    copy_map empty = empty
    copy_map (entry key value rest) = entry key (copy value) (copy_map rest)

  -- `get<long>` and `get<SmallString>`
  unfoldable pub get_long : JsonNode Double → Outcome ℤ
  get_long (long i) = returned i
  get_long _ = bad_access

  unfoldable pub get_small : JsonNode Double → Outcome (List ℕ)
  get_small (small s) = returned s
  get_small _ = bad_access

  -- Whether the alternative is one of those that the copy assignment stores as they are.
  unfoldable pub is_plain : JsonNode Double → Bool
  is_plain (string s) = false
  is_plain (map entries) = false
  is_plain (list nodes) = false
  is_plain _ = true

  abbrev pub nth : NodeList Double → ℕ → Option (JsonNode Double)
  nth nil i = none
  nth (node n rest) zero = some n
  nth (node n rest) (suc i) = nth rest i

  abbrev pub nth_value : NodeMap Double → ℕ → Option (JsonNode Double)
  nth_value empty i = none
  nth_value (entry key value rest) zero = some value
  nth_value (entry key value rest) (suc i) = nth_value rest i

  abbrev pub child_at : JsonNode Double → ℕ → Option (JsonNode Double)
  child_at (map entries) i = nth_value entries i
  child_at (list nodes) i = nth nodes i
  child_at _ i = none

  -- The node that a path of positions leads to.
  abbrev pub find : JsonNode Double → List ℕ → Option (JsonNode Double)
  find self [] = some self
  find self (i ∷ path) = elim (child_at self i) [ none ↦ none | some below ↦ find below path ]

  -- A read through the reference, where `*this` may hold nothing, as its storage is destroyed.
  unfoldable pub read_held : Option (JsonNode Double) → List ℕ → Outcome (JsonNode Double)
  read_held none path = destroyed_use
  read_held (some self) path = or_destroyed (find self path)

  unfoldable pub read : Option (JsonNode Double) → Reference Double → Outcome (JsonNode Double)
  read held (outside n) = returned n
  read held (inside path) = read_held held path

  -- Whether a node holds the alternative of a plain one.
  unfoldable pub same_alternative : JsonNode Double → JsonNode Double → Bool
  same_alternative null null = true
  same_alternative (boolean a) (boolean b) = true
  same_alternative (long a) (long b) = true
  same_alternative (double a) (double b) = true
  same_alternative (small a) (small b) = true
  same_alternative _ _ = false

  -- `storage = arg_val` for a plain alternative: `std::variant` assigns to the same alternative, and
  -- otherwise destroys what it holds before it constructs from the reference.
  unfoldable pub assign_plain :
      JsonNode Double → JsonNode Double → Reference Double → Outcome (JsonNode Double)
  assign_plain self n arg = if same_alternative self n then read (some self) arg else read none arg

  -- The visit of `arg.storage`: for a pointer the copy is made before the old storage goes.
  unfoldable pub assign_visited :
      JsonNode Double → JsonNode Double → Reference Double → Outcome (JsonNode Double)
  assign_visited self n arg = if is_plain n then assign_plain self n arg else returned (copy n)

  -- `operator=`: what `*this` is afterwards.
  unfoldable pub assign : JsonNode Double → Reference Double → Outcome (JsonNode Double)
  assign self (inside []) = returned self
  assign self arg = read (some self) arg >>= λ n. assign_visited self n arg
