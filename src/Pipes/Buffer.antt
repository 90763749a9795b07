-- ===== src/Pipes/Buffer.antt =====
-- The buffer of a pipe as a queue of bytes.
use theynix.Base.{
  ◌==◌, if◌then◌else◌, Bool-cases, inl, inr, sym, length-append, length-drop, length-take, ℕ, zero,
  suc, ◌+◌, ◌-◌, ◌≤◌, ◌≡◌, ◌∙◌, refl, ap, List, [], ◌∷◌, ◌++◌, length, take, drop, arith,
}
use theynix.Kernel.{Pipe}
use theynix.Pipes.{
  copy_from, zeros, pipe_copy_into_user_buffer, pipe_copy_into_pipe_buffer, make_room, write_bytes,
}
use mathlib.Core.Option.{some}

module _ {ℓ} {A : Type ℓ} where
  pub take-append_exact : (k : ℕ) (bs rest : List A) → k ≡ length bs → take k (bs ++ rest) ≡ bs
  take-append_exact zero [] rest e = refl
  take-append_exact zero (b ∷ bs) rest e = absurd (omega arith)
  take-append_exact (suc k) [] rest e = absurd (omega arith)
  take-append_exact (suc k) (b ∷ bs) rest e =
      ap (λ t. b ∷ t) (take-append_exact k bs rest (omega arith))

  take-take-append :
      (n m : ℕ) (xs bs rest : List A)
      → n ≤ length xs
      → m ≡ n + length bs
      → take m (take n xs ++ (bs ++ rest)) ≡ take n xs ++ bs
  take-take-append zero m xs bs rest h e = take-append_exact m bs rest (omega arith)
  take-take-append (suc n) m [] bs rest h e = absurd (omega arith)
  take-take-append (suc n) zero (x ∷ xs) bs rest h e = absurd (omega arith)
  take-take-append (suc n) (suc m) (x ∷ xs) bs rest h e =
      ap (λ t. x ∷ t) (take-take-append n m xs bs rest (omega arith) (omega arith))

  copy-written :
      (c n m a : ℕ) (xs bs rest : List A)
      → a ≡ c + n
      → a ≤ length xs
      → m ≡ n + length bs
      → take m (drop c (take a xs ++ (bs ++ rest))) ≡ take n (drop c xs) ++ bs
  copy-written zero n m a xs bs rest ea h e =
      let same : a ≡ n = omega arith in rw same (take-take-append n m xs bs rest (omega arith) e)
  copy-written (suc c) n m zero xs bs rest ea h e = absurd (omega arith)
  copy-written (suc c) n m (suc a) [] bs rest ea h e = absurd (omega arith)
  copy-written (suc c) n m (suc a) (x ∷ xs) bs rest ea h e =
      copy-written c n m a xs bs rest (omega arith) (omega arith) e

  take-take : (k n : ℕ) (xs : List A) → k ≤ n → take k (take n xs) ≡ take k xs
  take-take zero n xs h = refl
  take-take (suc k) zero xs h = absurd (omega arith)
  take-take (suc k) (suc n) [] h = refl
  take-take (suc k) (suc n) (x ∷ xs) h = ap (λ t. x ∷ t) (take-take k n xs (omega arith))

  drop-nil : (n : ℕ) → drop {A = A} n [] ≡ []
  drop-nil zero = refl
  drop-nil (suc n) = refl

  take-nil : (n : ℕ) → take {A = A} n [] ≡ []
  take-nil zero = refl
  take-nil (suc n) = refl

  take-drop : (k n m : ℕ) (xs : List A) → m + k ≡ n → take m (drop k xs) ≡ drop k (take n xs)
  take-drop zero n m xs e = let same : m ≡ n = omega arith in rw same
  take-drop (suc k) zero m xs e = absurd (omega arith)
  take-drop (suc k) (suc n) m [] e = take-nil m
  take-drop (suc k) (suc n) m (x ∷ xs) e = take-drop k n m xs (omega arith)

  drop-drop : (c k a : ℕ) (xs : List A) → a ≡ c + k → drop a xs ≡ drop k (drop c xs)
  drop-drop zero k a xs e = let same : a ≡ k = omega arith in rw same
  drop-drop (suc c) k zero xs e = absurd (omega arith)
  drop-drop (suc c) k (suc a) [] e = sym (drop-nil k)
  drop-drop (suc c) k (suc a) (x ∷ xs) e = drop-drop c k a xs (omega arith)

length-zeros : (n : ℕ) → length (zeros n) ≡ n
length-zeros zero = refl
length-zeros (suc n) = ap suc (length-zeros n)

-- The bytes that were written and not read, oldest first.
abbrev pub contents : Pipe → List ℕ
contents p = copy_from p.consumed p.num_chars_available p.buffer

-- The buffer has its capacity, and the unread bytes lie inside it.
pub record IsPipe (p : Pipe) : Type 0 where
  pub full : length p.buffer ≡ p.buffer_capacity
  pub inside : p.consumed + p.num_chars_available ≤ p.buffer_capacity

pub length-contents : (p : Pipe) → IsPipe p → length (contents p) ≡ p.num_chars_available
length-contents p is = omega (
  arith,
  length-take p.num_chars_available (drop p.consumed p.buffer),
  length-drop p.consumed p.buffer,
  is.full,
  is.inside,
)

module _ (bs : List ℕ) (p : Pipe) (is : IsPipe p) where
  room-IsPipe : IsPipe (make_room (length bs) p)
  unfolding make_room
  room-IsPipe = ground (
    arith,
    length-append (contents p) (zeros (length bs)),
    length-zeros (length bs),
    length-contents p is,
    is.full,
    is.inside,
  )

  -- Making room keeps the unread bytes, and leaves room for `bs`.
  room-contents :
      (contents (make_room (length bs) p) ≡ contents p)
      × (let q = make_room (length bs) p in
          q.consumed + q.num_chars_available + length bs ≤ q.buffer_capacity)
      × ((make_room (length bs) p).num_chars_available ≡ p.num_chars_available)
      × ((make_room (length bs) p).waiting_to_read ≡ p.waiting_to_read)
      × ((make_room (length bs) p).id ≡ p.id)
  unfolding make_room
  room-contents = ground (
    arith,
    take-append_exact p.num_chars_available (contents p) (zeros (length bs)),
    length-contents p is,
    is.inside,
  )

  copy-into :
      p.consumed + p.num_chars_available + length bs ≤ p.buffer_capacity
      → (p' : Pipe) × (pipe_copy_into_pipe_buffer bs p ≡ some p')
        × IsPipe p'
        × (contents p' ≡ contents p ++ bs)
        × (p'.num_chars_available ≡ p.num_chars_available + length bs)
        × (p'.waiting_to_read ≡ p.waiting_to_read)
        × (p'.id ≡ p.id)
  unfolding pipe_copy_into_pipe_buffer
  copy-into room =
      let at = p.consumed + p.num_chars_available in
      let rest = drop (at + length bs) p.buffer in
      (
        record p {
          buffer = take at p.buffer ++ (bs ++ rest);
          num_chars_available = p.num_chars_available + length bs;
        },
        ground (arith, is.full),
        record {
          full = omega (
            arith,
            length-append (take at p.buffer) (bs ++ rest),
            length-append bs rest,
            length-take at p.buffer,
            length-drop (at + length bs) p.buffer,
            is.full,
            room,
          );
          inside = omega (arith, room);
        },
        copy-written p.consumed p.num_chars_available _ at p.buffer bs rest refl
            (omega (arith, is.full, is.inside)) refl,
        refl,
        refl,
        refl,
      )

module _ (bs : List ℕ) (p : Pipe) (is : IsPipe p) where
  -- Writing bytes to a pipe fails no assert, writes nowhere outside its buffer, and puts them behind
  -- the bytes that wait to be read, whether or not the buffer has to grow; the waiting readers and
  -- the id stay.
  pub write_bytes-append :
      (p' : Pipe) × (write_bytes bs p ≡ some p')
      × IsPipe p'
      × (contents p' ≡ contents p ++ bs)
      × (p'.num_chars_available ≡ p.num_chars_available + length bs)
      × (p'.waiting_to_read ≡ p.waiting_to_read)
      × (p'.id ≡ p.id)
  unfolding write_bytes
  write_bytes-append =
      let (kept, room, num, waiting, same) = room-contents bs p is in
      let (p', e, is', appended, num', waiting', same') =
        copy-into bs (make_room (length bs) p) (room-IsPipe bs p is) room in
      (
        p',
        e,
        is',
        appended ∙ ap (λ c. c ++ bs) kept,
        num' ∙ ap (λ n. n + length bs) num,
        waiting' ∙ waiting,
        same' ∙ same,
      )

module _ (p : Pipe) (is : IsPipe p) where
  left_contents :
      (n : ℕ)
      → n ≤ p.num_chars_available
      → take
          (p.num_chars_available - n)
          (drop (if p.num_chars_available - n == 0 then 0 else p.consumed + n) p.buffer)
        ≡ drop n (contents p)
  left_contents n h = elim (Bool-cases (p.num_chars_available - n == 0)) [
    | inr some_left ↦
        rw (some_left, drop-drop p.consumed n (p.consumed + n) p.buffer refl)
          (take-drop n p.num_chars_available (p.num_chars_available - n) (drop p.consumed p.buffer)
            (omega arith))
    | inl none_left ↦
        let gone : p.num_chars_available - n ≡ 0 = ground arith in
        rw gone (take-drop n p.num_chars_available 0 (drop p.consumed p.buffer) (omega arith))
  ]

  -- Reading at most the bytes that are there takes them off the front, in order.
  pub pipe_copy_into_user_buffer-take :
      (n : ℕ)
      → n ≤ p.num_chars_available
      → (p' : Pipe) × (pipe_copy_into_user_buffer n p ≡ some (take n (contents p), p'))
        × IsPipe p'
        × (contents p' ≡ drop n (contents p))
        × (p'.num_chars_available + n ≡ p.num_chars_available)
        × (p'.waiting_to_read ≡ p.waiting_to_read)
        × (p'.id ≡ p.id)
  unfolding pipe_copy_into_user_buffer
  pipe_copy_into_user_buffer-take n h =
      let left = p.num_chars_available - n in
      (
        record p { num_chars_available = left; consumed = if left == 0 then 0 else p.consumed + n },
        ground (arith, take-take n p.num_chars_available (drop p.consumed p.buffer)),
        ground (arith, is.full, is.inside),
        left_contents n h,
        omega arith,
        refl,
        refl,
      )
