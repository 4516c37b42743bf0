-- ===== src/SerialDump/Lines.antt =====
-- What the loop of middleware/src/dump_serial.cpp prints.
use cpp_examples.Prelude.{
  ℕ, zero, suc, ◌+◌, ◌-◌, ◌<◌, ◌≤◌, ◌≡◌, refl, ap, ◌∙◌, sym, false, inl, inr, Option, none, some,
  List, [], ◌∷◌, ◌++◌, length, set, take, drop, ltb, ◌==◌, if◌then◌else◌, ◌>>=◌, arith, Bool-cases,
  before_zero, length-set, lt→ltb, dec_lt, length-append, subst,
}
use cpp_examples.Memory.{copy_in}
use cpp_examples.SerialDump.{store, printed, terminate, dump_once, dump, main, usage, dumping}

-- The bytes that a result of `read` puts out: none for a failure or for no bytes, else those before the
-- first zero byte and before the last place of the buffer, and a line feed.
unfoldable pub line : ℕ → Option (List ℕ) → List ℕ
line size none = []
line size (some []) = []
line size (some (b ∷ bytes)) = before_zero (take (size - 1) (b ∷ bytes)) ++ 10 ∷ []

unfoldable pub lines : ℕ → List (Option (List ℕ)) → List ℕ
lines size [] = []
lines size (result ∷ results) = line size result ++ lines size results

-- `read` writes at most as many bytes as it is asked for.
abbrev pub Fit : ℕ → List (Option (List ℕ)) → Type 0
Fit size [] = Unit {0}
Fit size (none ∷ results) = Fit size results
Fit size (some bytes ∷ results) = (length bytes ≤ size) × Fit size results

copy_in-cons :
    (x : ℕ) (memory : List ℕ) (offset : ℕ) (bytes : List ℕ)
    → copy_in (x ∷ memory) (suc offset) bytes
      ≡ (do after ← copy_in memory offset bytes; some (x ∷ after))
unfolding copy_in
copy_in-cons x memory offset [] = refl
copy_in-cons x memory offset (b ∷ bytes) =
    let next : suc offset + 1 ≡ suc (offset + 1) = omega arith in
    let more = copy_in-cons x (set memory offset b) (offset + 1) bytes in
    rw next (ground (arith, more))

copy_in-drop :
    (memory bytes : List ℕ)
    → length bytes ≤ length memory
    → copy_in memory 0 bytes ≡ some (bytes ++ drop (length bytes) memory)
unfolding copy_in
copy_in-drop memory [] h = refl
copy_in-drop [] (b ∷ bytes) h = absurd (omega arith)
copy_in-drop (x ∷ memory) (b ∷ bytes) h =
    let moved = copy_in-cons b memory 0 bytes in
    let more = copy_in-drop memory bytes (omega arith) in ground (arith, moved, more)

printed-set :
    (memory : List ℕ) (k : ℕ)
    → k < length memory
    → printed (set memory k 0) ≡ some (before_zero (take k memory))
unfolding printed before_zero
printed-set [] k h = absurd (omega arith)
printed-set (x ∷ memory) zero h = refl
printed-set (x ∷ memory) (suc k) h =
    let rest = printed-set memory k (omega arith) in
    elim (Bool-cases (x == 0)) [
      | inl e ↦ rw (printed, before_zero, e) refl
      | inr e ↦ rw (printed, before_zero, e, rest) refl
    ]

take-all : (k : ℕ) (xs : List ℕ) → length xs ≤ k → take k xs ≡ xs
take-all zero [] h = refl
take-all zero (x ∷ xs) h = absurd (omega arith)
take-all (suc k) [] h = refl
take-all (suc k) (x ∷ xs) h = ap (λ ys. x ∷ ys) (take-all k xs (omega arith))

take-append : (k : ℕ) (xs ys : List ℕ) → k ≤ length xs → take k (xs ++ ys) ≡ take k xs
take-append zero xs ys h = refl
take-append (suc k) [] ys h = absurd (omega arith)
take-append (suc k) (x ∷ xs) ys h = ap (λ zs. x ∷ zs) (take-append k xs ys (omega arith))

length-drop : (k : ℕ) (xs : List ℕ) → length (drop k xs) ≡ length xs - k
length-drop zero xs = omega arith
length-drop (suc k) [] = omega arith
length-drop (suc k) (x ∷ xs) = omega (arith, length-drop k xs)

-- A block that is written from its start on, then terminated at k: its length, and what it prints.
terminated :
    (filled bytes rest : List ℕ) (k : ℕ)
    → filled ≡ bytes ++ rest
    → k < length filled
    → k ≤ length bytes
    → printed (set filled k 0) ≡ some (before_zero (take k bytes))
terminated filled bytes rest k same inside few =
    printed-set filled k inside
    ∙ ap (λ xs. some (before_zero xs)) (ap (take k) same ∙ take-append k bytes rest few)

terminate-prints :
    (buffer bytes rest : List ℕ) (size : ℕ)
    → buffer ≡ bytes ++ rest
    → length buffer ≡ size
    → 0 < size
    → length bytes ≤ size
    → (after : List ℕ) × (terminate buffer (length bytes) ≡ some after)
      × (length after ≡ size)
      × (printed after ≡ some (before_zero (take (size - 1) bytes)))
unfolding terminate store
terminate-prints buffer bytes rest size same count room few = elim (dec_lt (length bytes) size) [
  | yes l ↦
      let below : length bytes < length buffer = omega (arith, count) in
      let test = lt→ltb _ _ below in
      let whole_text : take (length bytes) bytes ≡ take (size - 1) bytes =
        take-all (length bytes) bytes (omega arith)
        ∙ sym (take-all (size - 1) bytes (omega arith)) in
      (
        set buffer (length bytes) 0,
        rw test refl,
        length-set buffer (length bytes) 0 ∙ count,
        terminated buffer bytes rest (length bytes) same below (omega arith)
            ∙ ap (λ xs. some (before_zero xs)) whole_text,
      )
  | no l ↦
      let full : ltb (length bytes) (length buffer) ≡ false = ground (arith, count) in
      let last : length buffer - 1 ≡ size - 1 = omega (arith, count) in
      let below : size - 1 < length buffer = omega (arith, count) in
      let test = lt→ltb _ _ below in
      (
        set buffer (size - 1) 0,
        rw (full, last, test) refl,
        length-set buffer (size - 1) 0 ∙ count,
        terminated buffer bytes rest (size - 1) same below (omega (arith, l)),
      )
]

dump_once-line :
    (buffer : List ℕ) (result : Option (List ℕ)) (results : List (Option (List ℕ)))
    → 0 < length buffer
    → Fit (length buffer) (result ∷ results)
    → (after : List ℕ) × (dump_once buffer result ≡ some (after, line (length buffer) result))
      × (length after ≡ length buffer)
      × Fit (length buffer) results
unfolding dump_once line
dump_once-line buffer none results room fit = (buffer, refl, refl, fit)
dump_once-line buffer (some []) results room (few, fit) = (buffer, refl, refl, fit)
dump_once-line buffer (some (b ∷ bytes)) results room (few, fit) =
    let rest = drop (length (b ∷ bytes)) buffer in
    let count : length ((b ∷ bytes) ++ rest) ≡ length buffer =
      omega (arith, length-append (b ∷ bytes) rest, length-drop (length (b ∷ bytes)) buffer) in
    let (after, ended, kept, text) =
      terminate-prints ((b ∷ bytes) ++ rest) (b ∷ bytes) rest _ refl count room few in
    (after, rw (copy_in-drop buffer (b ∷ bytes) few, ended, text) refl, kept, fit)

dump-lines :
    (buffer : List ℕ) (results : List (Option (List ℕ)))
    → 0 < length buffer
    → Fit (length buffer) results
    → dump buffer results ≡ some (lines (length buffer) results)
unfolding dump lines
dump-lines buffer [] room fit = refl
dump-lines buffer (result ∷ results) room fit =
    let (after, once, kept, more) = dump_once-line buffer result results room fit in
    let rest =
      dump-lines after results (omega (arith, kept)) (subst (λ n. Fit n results) (sym kept) more) in
    rw (once, rest, kept) refl

-- With a device and a baud rate on the command line and a device that opens, and where each call of
-- read writes at most as many bytes as the buffer has, the loop makes no access out of bounds and
-- prints for each call the bytes before the first zero byte and before the last place of the buffer,
-- and a line feed; nothing for a call that fails or gives no bytes. With fewer arguments main returns.
pub main-lines :
    (argc fd : ℕ) (buffer : List ℕ) (results : List (Option (List ℕ)))
    → 0 < length buffer
    → Fit (length buffer) results
    → main argc (some fd) buffer results
      ≡ some (if ltb argc 3 then usage else dumping (lines (length buffer) results))
unfolding main
main-lines argc fd buffer results room fit = rw (dump-lines buffer results room fit) (ground arith)
