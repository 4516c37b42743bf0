-- ===== src/SendFile/Ownership.antt =====
-- Who closes the descriptors of cjunk/practice/sendFile.cc, and how often.
use cpp_examples.Prelude.{
  ℕ, suc, ◌≡◌, refl, Bool, true, false, Option, none, some, Bool-cases, inl, inr, List, [], ◌∷◌,
  ◌++◌, length, if◌then◌else◌,
}
use cpp_examples.SendFile.{
  System, Outcome, ok, exited, Program, pure, bind_outcome, returned, close_or_exit, make_server,
  destroy_server, destroy_client, destroy_elements, push_temporary, add_file, add_descriptor,
  destroy_vector, file_descriptor, add_loop, main,
}

-- What POSIX says of `close`: a descriptor that is not open is refused, one that was closed is not
-- open, and no descriptor becomes open.
pub record Closes (sys : System) : Type 0 where
  pub refused : (fd : ℕ) (w : sys.World) → sys.is_open w fd ≡ false → (sys.close fd w).0 ≡ none
  pub closed :
      (fd r : ℕ) (w : sys.World)
      → (sys.close fd w).0 ≡ some r
      → sys.is_open ((sys.close fd w).1) fd ≡ false
  pub opens_nothing :
      (fd other : ℕ) (w : sys.World)
      → sys.is_open w other ≡ false
      → sys.is_open ((sys.close fd w).1) other ≡ false

-- A run that ends in `exit(1)`.
pub data Exits {W A : Type 0} : Outcome W A → Type 0 where
  exits : (w : W) → Exits (exited w)

-- A run that exits, or returns a value and a state with a property.
pub data Ends {W A : Type 0} (P : A → W → Type 0) : Outcome W A → Type 0 where
  early : (w : W) → Ends P (exited w)
  value : (a : A) (w : W) → P a w → Ends P (ok a w)

Ends-bind :
    {W A B : Type 0} {P : A → W → Type 0} {Q : B → W → Type 0} {r : Outcome W A}
    {f : A → Program W B}
    → Ends P r
    → ((a : A) (w : W) → P a w → Ends Q (f a w))
    → Ends Q (bind_outcome r f)
Ends-bind (early w) k = early w
Ends-bind (value a w p) k = k a w p

Ends-weaken :
    {W A : Type 0} {P Q : A → W → Type 0} {r : Outcome W A}
    → Ends P r
    → ((a : A) (w : W) → P a w → Q a w)
    → Ends Q r
Ends-weaken (early w) k = early w
Ends-weaken (value a w p) k = value a w (k a w p)

Exits-bind :
    {W A B : Type 0} {P : A → W → Type 0} {r : Outcome W A} {f : A → Program W B}
    → Ends P r
    → ((a : A) (w : W) → P a w → Exits (f a w))
    → Exits (bind_outcome r f)
Exits-bind (early w) k = exits w
Exits-bind (value a w p) k = k a w p

Exits-first :
    {W A B : Type 0} {r : Outcome W A} (f : A → Program W B) → Exits r → Exits (bind_outcome r f)
Exits-first f (exits w) = exits w

-- A call without more to say of it.
returned-Ends : {W A : Type 0} (r : Option A × W) → Ends (λ a w. Unit {0}) (returned r)
returned-Ends (none, w) = early w
returned-Ends (some a, w) = value a w tt

-- What holds wherever a call succeeds.
returned-state :
    {W A : Type 0} (P : W → Type 0) (r : Option A × W)
    → ((a : A) → r.0 ≡ some a → P (r.1))
    → Ends (λ a w. P w) (returned r)
returned-state P (none, w) h = early w
returned-state P (some a, w) h = value a w (h a refl)

returned-refused : {W A : Type 0} (r : Option A × W) → r.0 ≡ none → Exits (returned r)
returned-refused (none, w) h = exits w
returned-refused (some a, w) h = absurd cc

module _ (sys : System) (laws : Closes sys) where
  open sys use {World, is_open, close}

  close_or_exit-Ends :
      (fd : ℕ) (w : World) → Ends (λ r v. is_open v fd ≡ false) (close_or_exit sys fd w)
  unfolding close_or_exit
  close_or_exit-Ends fd w =
      returned-state (λ v. is_open v fd ≡ false) (close fd w) (λ r h. laws.closed fd r w h)

  close_or_exit-Exits : (fd : ℕ) (w : World) → is_open w fd ≡ false → Exits (close_or_exit sys fd w)
  unfolding close_or_exit
  close_or_exit-Exits fd w h = returned-refused (close fd w) (laws.refused fd w h)

  destroy_server-Exits : (sock : ℕ) (w : World) → Exits (destroy_server sys sock w)
  unfolding destroy_server
  destroy_server-Exits sock w =
      Exits-bind (close_or_exit-Ends sock w) (λ r v h. close_or_exit-Exits sock v h)

  destroy_client-Exits : (sock : ℕ) (w : World) → Exits (destroy_client sys sock w)
  unfolding destroy_client
  destroy_client-Exits sock w =
      Exits-bind (close_or_exit-Ends sock w) (λ r v h. close_or_exit-Exits sock v h)

  destroy_elements-Ends :
      (fds : List ℕ) (w : World) → Ends (λ r v. Unit {0}) (destroy_elements sys fds w)
  unfolding destroy_elements
  destroy_elements-Ends [] w = value 0 w tt
  destroy_elements-Ends (fd ∷ fds) w =
      Ends-bind (close_or_exit-Ends fd w) (λ r v h. destroy_elements-Ends fds v)

  -- What is closed stays closed.
  close_or_exit-closed :
      (other fd : ℕ) (w : World)
      → is_open w other ≡ false
      → Ends (λ r v. is_open v other ≡ false) (close_or_exit sys fd w)
  unfolding close_or_exit
  close_or_exit-closed other fd w h =
      returned-state (λ v. is_open v other ≡ false) (close fd w)
        (λ r e. laws.opens_nothing fd other w h)

  destroy_elements-closed :
      (other : ℕ) (fds : List ℕ) (w : World)
      → is_open w other ≡ false
      → Ends (λ r v. is_open v other ≡ false) (destroy_elements sys fds w)
  unfolding destroy_elements
  destroy_elements-closed other [] w h = value 0 w h
  destroy_elements-closed other (fd ∷ fds) w h =
      Ends-bind (close_or_exit-closed other fd w h)
        (λ r v h₁. destroy_elements-closed other fds v h₁)

  growth-Ends :
      (b : Bool) (fds : List ℕ) (w : World)
      → Ends (λ r v. Unit {0}) ((if b then destroy_elements sys fds else pure 0) w)
  growth-Ends true fds w = destroy_elements-Ends fds w
  growth-Ends false fds w = value 0 w tt

  -- The descriptor that a vector has just been given is closed.
  push_temporary-Ends :
      (grows : ℕ → Bool) (fds : List ℕ) (fd : ℕ) (w : World)
      → Ends
          (λ all v. (all ≡ fds ++ fd ∷ []) × (is_open v fd ≡ false))
          (push_temporary sys grows fds fd w)
  unfolding push_temporary
  push_temporary-Ends grows fds fd w = Ends-bind (growth-Ends (grows (length fds)) fds w) (λ r v h.
      Ends-bind (close_or_exit-Ends fd v) (λ r₁ v₁ h₁. value (fds ++ fd ∷ []) v₁ (refl, h₁)))

  push_temporary-Exits :
      (grows : ℕ → Bool) (fd : ℕ) (w : World)
      → is_open w fd ≡ false
      → Exits (push_temporary sys grows [] fd w)
  unfolding push_temporary destroy_elements
  push_temporary-Exits grows fd w h = elim (Bool-cases (grows 0)) [
    | inl e ↦ rw e (Exits-first _ (close_or_exit-Exits fd w h))
    | inr e ↦ rw e (Exits-first _ (close_or_exit-Exits fd w h))
  ]

  -- Under what POSIX says of close, FileVector::Add ends in exit(1), or returns the old vector with a
  -- new last descriptor that is closed.
  pub add_file-Ends :
      (grows : ℕ → Bool) (files path : List ℕ) (w : World)
      → Ends
          (λ all v. (fd : ℕ) × ((all ≡ files ++ fd ∷ []) × (is_open v fd ≡ false)))
          (add_file sys grows files path w)
  unfolding add_file
  add_file-Ends grows files path w =
      Ends-bind (returned-Ends (sys.open_file path w))
        (λ fd v h. Ends-weaken (push_temporary-Ends grows files fd v) (λ all u p. (fd, p)))

  destroy_vector-Exits :
      (fd : ℕ) (fds : List ℕ) (w : World) → Exits (destroy_vector sys (fd ∷ fds) w)
  unfolding destroy_vector destroy_elements
  destroy_vector-Exits fd fds w =
      Exits-bind (Ends-bind (close_or_exit-Ends fd w) (λ r v h. destroy_elements-closed fd fds v h))
        (λ r v h. Exits-first _ (close_or_exit-Exits fd v h))

  -- Under what POSIX says of close, the destructors of a Server, of a Client, and of a FileVector or a
  -- FileDescriptorVector that is not empty always end in exit(1).
  pub destroy_each-Exits :
      (fd : ℕ) (fds : List ℕ) (w : World)
      → Exits (destroy_server sys fd w)
        × Exits (destroy_client sys fd w)
        × Exits (destroy_vector sys (fd ∷ fds) w)
  destroy_each-Exits fd fds w =
      (destroy_server-Exits fd w, destroy_client-Exits fd w, destroy_vector-Exits fd fds w)

  -- The first round of the loop of main exits: the descriptor of the file is closed when
  -- FileDescriptorVector::Add closes it.
  add_loop-Exits :
      (grows : ℕ → Bool) (path : List ℕ) (count : ℕ) (w : World)
      → Exits (add_loop sys grows path (suc count) 0 [] [] w)
  unfolding add_loop file_descriptor add_descriptor
  add_loop-Exits grows path count w =
      Exits-bind (add_file-Ends grows [] path w)
        (λ all v (fd, (e, c)). rw e (Exits-first _ (push_temporary-Exits grows fd v c)))

  make_server-Ends : (path : List ℕ) (w : World) → Ends (λ s v. Unit {0}) (make_server sys path w)
  unfolding make_server
  make_server-Ends path w = Ends-bind (returned-Ends (sys.socket w)) (λ sock v _.
      Ends-bind (returned-Ends (sys.bind sock (sys.uninitialized v) v)) (λ r u _. value sock u tt))

  -- main always ends in exit(1), whatever the system calls return, if close refuses a descriptor
  -- that is not open, leaves one that it closes not open, and opens none.
  pub main-Exits :
      (grows : ℕ → Bool) (socket_path file_path : List ℕ) (w : World)
      → Exits (main sys grows socket_path file_path w)
  unfolding main
  main-Exits grows socket_path file_path w =
      Exits-bind (make_server-Ends socket_path w) (λ server w₁ _.
        Exits-bind (returned-Ends (sys.listen server w₁)) (λ r w₂ _.
          Exits-bind (returned-Ends (sys.accept server w₂))
            (λ client w₃ _. Exits-first _ (add_loop-Exits grows file_path 9 w₃))))
