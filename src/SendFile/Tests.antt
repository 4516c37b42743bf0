-- ===== src/SendFile/Tests.antt =====
-- A system for cjunk/practice/sendFile.cc in which every call but a wrong `close` succeeds.
use cpp_examples.Prelude.{
  ℕ, ◌+◌, ◌≡◌, refl, Bool, true, false, Option, none, some, List, [], ◌∷◌, arith, ◌==◌,
  if◌then◌else◌, Bool-cases, inl, inr,
}
use cpp_examples.SendFile.{
  System, destroy_server, destroy_client, add_file, destroy_vector, main, message, as_sent, iovecs,
  iovecs_as_sent,
}
use cpp_examples.SendFile.Ownership.{
  Closes, Exits, Ends, add_file-Ends, destroy_each-Exits, main-Exits,
}

-- The table of open descriptors, and the next one to give.
abbrev Table : Type 0
Table = (ℕ → Bool) × ℕ

abbrev closed_at : (ℕ → Bool) → ℕ → ℕ → Bool
closed_at opened fd i = if i == fd then false else opened i

abbrev fresh : Table → Option ℕ × Table
fresh (opened, next) = (some next, ((λ i. if i == next then true else opened i), next + 1))

abbrev try_close : ℕ → Table → Option ℕ × Table
try_close fd (opened, next) =
    if opened fd then (some 0, (closed_at opened fd, next)) else (none, (opened, next))

abbrev calm : System
calm = record {
  World = Table;
  is_open = λ (opened, next) fd. opened fd;
  uninitialized = λ w. [];
  socket = fresh;
  bind = λ fd addr w. (some 0, w);
  listen = λ fd w. (some 0, w);
  accept = λ fd w. fresh w;
  connect = λ fd addr w. (some 0, w);
  open_file = λ path w. fresh w;
  close = try_close;
  sendmsg = λ fd msg w. (some 40, w);
  recvmsg = λ fd msg w. (some msg, w);
}

try_close-closed :
    (fd : ℕ) (opened : ℕ → Bool) (next : ℕ) → (try_close fd (opened, next)).1.0 fd ≡ false
try_close-closed fd opened next = elim (Bool-cases (opened fd)) [
  | inl e ↦ let same : (fd == fd) ≡ true = ground arith in rw (e, same) refl
  | inr e ↦ rw (e, e) refl
]

try_close-stays :
    (fd other : ℕ) (opened : ℕ → Bool) (next : ℕ)
    → opened other ≡ false
    → (try_close fd (opened, next)).1.0 other ≡ false
try_close-stays fd other opened next h = elim (Bool-cases (opened fd)) [
  | inl e ↦ elim (Bool-cases (other == fd)) [ inl s ↦ rw (e, s) refl | inr s ↦ rw (e, s, h) refl ]
  | inr e ↦ rw (e, h) refl
]

calm-Closes : Closes calm
calm-Closes = record {
  refused = λ fd (opened, next) h. rw h refl;
  closed = λ fd r (opened, next) h. try_close-closed fd opened next;
  opens_nothing = λ fd other (opened, next) h. try_close-stays fd other opened next h;
}

abbrev start : Table
start = ((λ i. i == 3), 4)

abbrev file_path : List ℕ
file_path = b'/' ∷ b'f' ∷ []

add_file-Ends_example :
    Ends
      (λ all v. (fd : ℕ) × ((all ≡ fd ∷ []) × (calm.is_open v fd ≡ false)))
      (add_file calm (λ k. false) [] file_path start)
add_file-Ends_example = add_file-Ends calm calm-Closes (λ k. false) [] file_path start

destroy_each-Exits_example :
    Exits (destroy_server calm 3 start)
    × Exits (destroy_client calm 3 start)
    × Exits (destroy_vector calm (3 ∷ 4 ∷ []) start)
destroy_each-Exits_example = destroy_each-Exits calm calm-Closes 3 (4 ∷ []) start

main-Exits_example : Exits (main calm (λ k. k == 0) (b's' ∷ []) file_path start)
main-Exits_example = main-Exits calm calm-Closes (λ k. k == 0) (b's' ∷ []) file_path start

-- The header as it was sent passes the tests of `main`.
unchanged_message : as_sent message ≡ true
unfolding as_sent message iovecs iovecs_as_sent
unchanged_message = refl
