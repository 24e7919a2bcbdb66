-- ===== src/Broker/Fetch/Limit.antt =====
-- The body of a response is a prefix of what was sent, of at most the given size.
use strange_claw.Prelude.{
  ℕ, ◌+◌, ◌-◌, ◌≤◌, ◌≡◌, refl, true, false, List, [], ◌∷◌, ◌++◌, ltb, take, length, suc, zero,
  if◌then◌else◌, length-append, append_assoc, append-nil, ◌∙◌, arith, Bool-cases, inl, inr, ap,
}
use strange_claw.Python.{Stream, finished, broken, chunk}
use strange_claw.Broker.Fetch.{Body, complete, broke, crashed, read_body}

-- All the bytes that the response would yield, and what its end would make of them.
abbrev pub bytes : Stream → List ℕ
bytes finished = []
bytes (broken e detail) = []
bytes (Stream.crashed e) = []
bytes (chunk c rest) = c ++ bytes rest

abbrev pub ending : Stream → List ℕ → Body
ending finished raw = complete raw false
ending (broken e detail) raw = broke e detail
ending (Stream.crashed e) raw = crashed e
ending (chunk c rest) raw = ending rest raw

-- A cut if there are too many bytes, and the whole body if not.
abbrev pub cut_at : ℕ → Stream → Body
cut_at max_bytes s =
    if ltb max_bytes (length (bytes s))
    then complete (take max_bytes (bytes s)) true
    else ending s (bytes s)

take-append_short :
    {A : Type 0} (n : ℕ) (xs ys : List A)
    → length xs ≤ n
    → take n (xs ++ ys) ≡ xs ++ take (n - length xs) ys
take-append_short n [] ys h = ap (λ (k : ℕ). take k ys) (omega arith)
take-append_short zero (x ∷ xs) ys h = absurd (omega arith)
take-append_short (suc n) (x ∷ xs) ys h =
    rw (take-append_short n xs ys (omega arith)) (ap (λ (k : ℕ). x ∷ xs ++ take k ys) (omega arith))

take-append_long :
    {A : Type 0} (n : ℕ) (xs ys : List A) → n ≤ length xs → take n (xs ++ ys) ≡ take n xs
take-append_long zero xs ys h = refl
take-append_long (suc n) [] ys h = absurd (omega arith)
take-append_long (suc n) (x ∷ xs) ys h = rw (take-append_long n xs ys (omega arith))

cut_here :
    (m : ℕ) (raw : List ℕ) (total : ℕ) (c : List ℕ) (rest : Stream)
    → total ≤ m
    → ltb m (total + length c) ≡ true
    → complete (raw ++ take (m - total) c) true ≡ (
        if ltb m (total + length (c ++ bytes rest))
        then complete (raw ++ take (m - total) (c ++ bytes rest)) true
        else ending rest (raw ++ (c ++ bytes rest)))
cut_here m raw total c rest h over =
    rw (take-append_long (m - total) c (bytes rest) (ground arith))
      (ground (arith, length-append c (bytes rest)))

read_on :
    (m : ℕ) (raw : List ℕ) (total : ℕ) (c : List ℕ) (rest : Stream)
    → total + length c ≤ m
    → (if ltb m (total + length c + length (bytes rest))
        then complete ((raw ++ c) ++ take (m - (total + length c)) (bytes rest)) true
        else ending rest ((raw ++ c) ++ bytes rest))
      ≡ (if ltb m (total + length (c ++ bytes rest))
          then complete (raw ++ take (m - total) (c ++ bytes rest)) true
          else ending rest (raw ++ (c ++ bytes rest)))
read_on m raw total c rest h =
    let sum_eq : total + length c + length (bytes rest) ≡ total + (length c + length (bytes rest)) =
      omega arith in
    let left_eq : m - (total + length c) ≡ m - total - length c = omega arith in
    rw (
      take-append_short (m - total) c (bytes rest) (omega arith),
      length-append c (bytes rest),
      append_assoc,
      append_assoc,
      sum_eq,
      left_eq,
    )

read_body-from :
    (max_bytes : ℕ) (raw : List ℕ) (total : ℕ) (s : Stream)
    → total ≡ length raw
    → total ≤ max_bytes
    → read_body max_bytes raw total s ≡ (
        if ltb max_bytes (total + length (bytes s))
        then complete (raw ++ take (max_bytes - total) (bytes s)) true
        else ending s (raw ++ bytes s))
unfolding read_body
read_body-from m raw total finished e h = rw append-nil (ground arith)
read_body-from m raw total (broken x d) e h = ground arith
read_body-from m raw total (Stream.crashed x) e h = ground arith
read_body-from m raw total (chunk [] rest) e h = read_body-from m raw total rest e h
read_body-from m raw total (chunk (b ∷ bs) rest) e h =
    elim (Bool-cases (ltb m (total + length (b ∷ bs)))) [
      | inl over ↦ rw over (cut_here m raw total (b ∷ bs) rest h over)
      | inr under ↦ rw under (
          read_body-from m (raw ++ b ∷ bs) (total + length (b ∷ bs)) rest
            (omega (arith, length-append raw (b ∷ bs))) (ground arith)
          ∙ read_on m raw total (b ∷ bs) rest (ground arith))
    ]

-- Whatever the chunks, the loop yields the whole body if it has at most `max_bytes` bytes, and
-- otherwise exactly its first `max_bytes` bytes, marked as truncated; an exception that comes before
-- the limit is passed comes out.
pub read_body-cut_at :
    (max_bytes : ℕ) (s : Stream) → read_body max_bytes [] 0 s ≡ cut_at max_bytes s
read_body-cut_at max_bytes s =
    let sum_eq : 0 + length (bytes s) ≡ length (bytes s) = omega arith in
    let left_eq : max_bytes - 0 ≡ max_bytes = omega arith in
    read_body-from max_bytes [] 0 s refl (omega arith) ∙ rw (sum_eq, left_eq)
