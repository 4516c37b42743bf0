-- ===== src/SendFile.antt =====
-- cjunk/practice/sendFile.cc: wrappers of file descriptors, and the program that passes ten of them.
-- The system calls are a parameter. Their result is `none` for -1; `exit(1)` ends a run at once, with
-- no destructor called.
pub mod Ownership
mod Tests
use cpp_examples.Prelude.{
  ℕ, zero, suc, ◌+◌, Bool, true, false, ◌&&◌, Option, none, some, List, [], ◌∷◌, ◌++◌, length,
  get_elem?, ◌==◌, if◌then◌else◌,
}

-- `struct iovec` with its address as a number, and `struct msghdr` with what `main` sets and tests;
-- a `NULL` name is the address 0.
pub record Iovec : Type 0 where
  pub iov_base : ℕ
  pub iov_len : ℕ

pub record Msghdr : Type 0 where
  pub msg_name : ℕ
  pub msg_namelen : ℕ
  pub msg_iov : List Iovec
  pub msg_iovlen : ℕ
  pub msg_control : ℕ
  pub msg_controllen : ℕ
  pub msg_flags : ℕ

-- The system calls on a state of the system. A path is the list of its bytes; `uninitialized` are the
-- bytes that a new `addr_` happens to have, which no constructor sets.
pub record System : Type 1 where
  pub World : Type 0
  pub is_open : World → ℕ → Bool
  pub uninitialized : World → List ℕ
  pub socket : World → Option ℕ × World
  pub bind : ℕ → List ℕ → World → Option ℕ × World
  pub listen : ℕ → World → Option ℕ × World
  pub accept : ℕ → World → Option ℕ × World
  pub connect : ℕ → List ℕ → World → Option ℕ × World
  pub open_file : List ℕ → World → Option ℕ × World
  pub close : ℕ → World → Option ℕ × World
  pub sendmsg : ℕ → Msghdr → World → Option ℕ × World
  pub recvmsg : ℕ → Msghdr → World → Option Msghdr × World

pub data Outcome (W : Type 0) (A : Type 0) : Type 0 where
  ok : A → W → Outcome W A
  exited : W → Outcome W A
  undefined : Outcome W A

abbrev pub Program : Type 0 → Type 0 → Type 0
Program W A = W → Outcome W A

abbrev pub pure : {W A : Type 0} → A → Program W A
pure a w = ok a w

abbrev pub bind_outcome : {W A B : Type 0} → Outcome W A → (A → Program W B) → Outcome W B
bind_outcome (ok a w) f = f a w
bind_outcome (exited w) f = exited w
bind_outcome undefined f = undefined

infixl 1 ◌>>=◌ ◌>>◌
abbrev pub ◌>>=◌ : {W A B : Type 0} → Program W A → (A → Program W B) → Program W B
◌>>=◌ p f w = bind_outcome (p w) f

abbrev pub ◌>>◌ : {W A B : Type 0} → Program W A → Program W B → Program W B
p >> q = p >>= λ _. q

abbrev pub returned : {W A : Type 0} → Option A × W → Outcome W A
returned (none, w) = exited w
returned (some a, w) = ok a w

-- `if (call(…) == -1) { …; exit(1); }`
abbrev pub or_exit : {W A : Type 0} → (W → Option A × W) → Program W A
or_exit call w = returned (call w)

-- `sizeof(int)`, and the addresses `0` to `9` of `main`.
unfoldable pub iovecs : ℕ → ℕ → List Iovec
iovecs zero i = []
iovecs (suc count) i = record { iov_base = i; iov_len = 4 } ∷ iovecs count (i + 1)

unfoldable pub message : Msghdr
message = record {
  msg_name = 0;
  msg_namelen = 0;
  msg_iov = iovecs 10 0;
  msg_iovlen = length (iovecs 10 0);
  msg_control = 0;
  msg_controllen = 0;
  msg_flags = 0;
}

-- The loop over the received vectors: the first `count` of them from index `i` on. A vector that is
-- missing stands for an access out of bounds.
unfoldable pub iovecs_as_sent : ℕ → ℕ → List Iovec → Bool
iovecs_as_sent zero i rest = true
iovecs_as_sent (suc count) i [] = false
iovecs_as_sent (suc count) i (v ∷ rest) =
    (v.iov_len == 4) && ((v.iov_base == i) && iovecs_as_sent count (i + 1) rest)

-- All tests of `main` on the received header.
unfoldable pub as_sent : Msghdr → Bool
as_sent msg =
    iovecs_as_sent 10 0 (msg.msg_iov)
    && ((msg.msg_controllen == 0)
        && ((msg.msg_flags == 0)
            && ((msg.msg_namelen == 0) && ((msg.msg_name == 0) && (msg.msg_iovlen == 10)))))

module _ (sys : System) where
  open sys use {
    World, uninitialized, socket, bind, listen, accept, connect, open_file, close, sendmsg, recvmsg,
  }

  -- `~Socket`, `~File`, `~FileDescriptor`, and the call in the bodies of the other destructors.
  unfoldable pub close_or_exit : ℕ → Program World ℕ
  close_or_exit fd = or_exit (close fd)

  -- `Server(path)`, with the `Socket` that it holds: the value is the descriptor of that socket. The
  -- path is kept in `path_`, which nothing reads, and `bind` gets `addr_`.
  unfoldable pub make_server : List ℕ → Program World ℕ
  make_server path = do
    sock ← or_exit socket
    or_exit (λ w. bind sock (uninitialized w) w)
    pure sock

  -- `~Server`: its body, and then the destructor of the member.
  unfoldable pub destroy_server : ℕ → Program World ℕ
  destroy_server sock = do close_or_exit sock; close_or_exit sock

  -- `Client(path)`, in the same way.
  unfoldable pub make_client : List ℕ → Program World ℕ
  make_client path = do
    sock ← or_exit socket
    or_exit (λ w. connect sock (uninitialized w) w)
    pure sock

  unfoldable pub destroy_client : ℕ → Program World ℕ
  destroy_client sock = do close_or_exit sock; close_or_exit sock

  -- The destructors of the elements of a vector, in order.
  unfoldable pub destroy_elements : List ℕ → Program World ℕ
  destroy_elements [] = pure 0
  destroy_elements (fd ∷ fds) = do close_or_exit fd; destroy_elements fds

  -- `push_back(File(path))` and `push_back(FileDescriptor(fd))`: the vector gets a copy, and the
  -- temporary is destroyed. The classes have a destructor and so no move: where `push_back` needs new
  -- storage, which is for the library to choose, the old elements are copied there and destroyed.
  unfoldable pub push_temporary : (ℕ → Bool) → List ℕ → ℕ → Program World (List ℕ)
  push_temporary grows fds fd = do
    (if grows (length fds) then destroy_elements fds else pure 0)
    close_or_exit fd
    pure (fds ++ fd ∷ [])

  -- `FileVector::Add` and `FileDescriptorVector::Add`
  unfoldable pub add_file : (ℕ → Bool) → List ℕ → List ℕ → Program World (List ℕ)
  add_file grows files path = do fd ← or_exit (open_file path); push_temporary grows files fd

  unfoldable pub add_descriptor : (ℕ → Bool) → List ℕ → ℕ → Program World (List ℕ)
  add_descriptor grows fds fd = push_temporary grows fds fd

  -- `~FileVector` and `~FileDescriptorVector`: the loop of the body, and then the vector's own
  -- elements.
  unfoldable pub destroy_vector : List ℕ → Program World ℕ
  destroy_vector fds = do destroy_elements fds; destroy_elements fds

  -- `FileVector::fd`, where an index behind the end is undefined behaviour.
  unfoldable pub file_descriptor : List ℕ → ℕ → Program World ℕ
  file_descriptor files i w = elim (get_elem? files i) [ none ↦ undefined | some fd ↦ ok fd w ]

  unfoldable pub check_message : Msghdr → Program World ℕ
  check_message received w = if as_sent received then ok 0 w else exited w

  -- The first loop of `main`, from index `i` on.
  unfoldable pub add_loop :
      (ℕ → Bool) → List ℕ → ℕ → ℕ → List ℕ → List ℕ → Program World (List ℕ × List ℕ)
  add_loop grows path zero i files fds = pure (files, fds)
  add_loop grows path (suc count) i files fds = do
    more ← add_file grows files path
    fd ← file_descriptor more i
    all ← add_descriptor grows fds fd
    add_loop grows path count (i + 1) more all

  -- `main` up to its `return`, and the destructors of its locals in the order of C++.
  unfoldable pub main : (ℕ → Bool) → List ℕ → List ℕ → Program World ℕ
  main grows socket_path file_path = do
    server ← make_server socket_path
    or_exit (listen server)
    client ← or_exit (accept server)
    (files, fds) ← add_loop grows file_path 10 0 [] []
    or_exit (sendmsg client message)
    received ← or_exit (recvmsg client message)
    check_message received
    destroy_vector fds
    destroy_vector files
    destroy_server server
