-- ===== src/Session/Journal.antt =====
-- The size of the journal, and what is lost when it is full.
use strange_claw.Prelude.{
  ℕ, zero, suc, ◌-◌, ◌==◌, ◌≤◌, ◌<◌, ◌≡◌, refl, ltb, Bool, true, false, not, ◌||◌, none, some, List,
  [], ◌∷◌, ◌++◌, length, length-append, All, arith, if◌then◌else◌, ap,
}
use strange_claw.Session.{drop, after_newline, keep_within, append_journal}

length-drop : (n : ℕ) (xs : List ℕ) → length (drop n xs) ≡ length xs - n
length-drop zero xs = omega arith
length-drop (suc n) [] = omega arith
length-drop (suc n) (x ∷ xs) = omega (arith, length-drop n xs)

length-after_newline : (xs : List ℕ) → length (after_newline xs) ≤ length xs
length-after_newline [] = omega arith
length-after_newline (x ∷ xs) = ground (arith, length-after_newline xs)

keep_within-le :
    (budget : ℕ) (existing : List ℕ) → 0 < budget → length (keep_within budget existing) ≤ budget
keep_within-le zero existing h = absurd (omega arith)
keep_within-le (suc n) existing h = ground (
  arith,
  length-after_newline (drop (length existing - suc n) existing),
  length-drop (length existing - suc n) existing,
)

written :
    {A : Type 0} (b c : Bool) (x y : A)
    → (if b then none else if c then none else some x) ≡ some y
    → x ≡ y
written false false x y e = cc
written true c x y e = cc
written false true x y e = cc

-- If the new line is shorter than the limit, the journal that is written is within the limit.
pub append_journal-le :
    (enabled : Bool) (max_bytes : ℕ) (existing line content : List ℕ)
    → length line < max_bytes
    → append_journal enabled max_bytes existing line ≡ some content
    → length content ≤ max_bytes
unfolding append_journal
append_journal-le enabled max_bytes existing line content h e =
    let same = written (not enabled || max_bytes == 0) (ltb max_bytes (length line)) _ content e in
    let kept = keep_within-le (max_bytes - length line) existing (omega arith) in
    rw (← same)
      (omega (arith, kept, length-append (keep_within (max_bytes - length line) existing) line))

after_newline-append :
    (first rest : List ℕ)
    → All (λ c. (c == 10) ≡ false) first
    → after_newline (first ++ 10 ∷ rest) ≡ rest
after_newline-append [] rest h = refl
after_newline-append (c ∷ first) rest h = rw (h.0) (after_newline-append first rest h.1)

-- If the new line is exactly as long as the limit, only the first line of the journal is dropped, so
-- that the journal that is written is longer than the limit by all its other lines.
pub append_journal_at_limit :
    (max_bytes : ℕ) (first rest line : List ℕ)
    → 0 < max_bytes
    → length line ≡ max_bytes
    → All (λ c. (c == 10) ≡ false) first
    → append_journal true max_bytes (first ++ 10 ∷ rest) line ≡ some (rest ++ line)
unfolding append_journal
append_journal_at_limit max_bytes first rest line h e free =
    let full : max_bytes - length line ≡ 0 = omega arith in
    rw full (
      ground (
        arith,
        length-append first (10 ∷ rest),
        ap (λ (k : List ℕ). k ++ line) (after_newline-append first rest free),
      ))
