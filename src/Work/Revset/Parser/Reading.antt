-- ===== src/Work/Revset/Parser/Reading.antt =====
-- How the parser reads tokens that stand for an expression, with any tokens behind them.
use mathlib.Core.List.{append_assoc}
use omoplata.Prelude.{
  ◌≡◌, refl, ap, ◌∙◌, ℕ, zero, suc, ◌+◌, ◌*◌, ◌≤◌, String, none, some, List, [], ◌∷◌, ◌++◌, length,
  length-append, ok, arith,
}
use omoplata.Work.Revset.{RevExpr, strip_prefix}
use omoplata.Work.Revset.Parser.{
  Token, parse_word, parse_or, or_loop, parse_and, and_loop, parse_unary,
}

abbrev pub grouped : List Token → List Token
grouped tokens = Token.left_paren ∷ (tokens ++ Token.right_paren ∷ [])

-- No parenthesis opens behind the expression.
abbrev pub IsFree : List Token → Type 0
IsFree (Token.left_paren ∷ tokens) = ⊥
IsFree _ = Unit

-- No intersection goes on behind the expression either.
abbrev pub IsEnd : List Token → Type 0
IsEnd (Token.left_paren ∷ tokens) = ⊥
IsEnd (Token.and ∷ tokens) = ⊥
IsEnd _ = Unit

-- Fuel of four for each token is enough for what binds tightest; the loops of the two operators are left
-- with the fuel that their tokens have not taken.
abbrev pub ReadsUnary : List Token → RevExpr → Type 0
ReadsUnary ts e =
    (fuel : ℕ) (rest : List Token)
    → IsFree rest
    → 4 * length ts ≤ fuel
    → parse_unary fuel (ts ++ rest) ≡ some (ok (e, rest))

abbrev pub ReadsAnd : List Token → RevExpr → Type 0
ReadsAnd ts e =
    (fuel : ℕ) (rest : List Token)
    → IsFree rest
    → 4 * length ts + 1 ≤ fuel
    → (left : ℕ) × (fuel ≤ left + 2 * length ts)
      × (parse_and fuel (ts ++ rest) ≡ and_loop left e rest)

abbrev pub ReadsOr : List Token → RevExpr → Type 0
ReadsOr ts e =
    (fuel : ℕ) (rest : List Token)
    → IsEnd rest
    → 4 * length ts + 2 ≤ fuel
    → (left : ℕ) × (fuel ≤ left + 2 * length ts)
      × (parse_or fuel (ts ++ rest) ≡ or_loop left e rest)

end-IsFree : (rest : List Token) → IsEnd rest → IsFree rest
end-IsFree [] stop = tt
end-IsFree (Token.left_paren ∷ rest) stop = absurd stop
end-IsFree (Token.right_paren ∷ rest) stop = tt
end-IsFree (Token.and ∷ rest) stop = tt
end-IsFree (Token.or ∷ rest) stop = tt
end-IsFree (Token.not ∷ rest) stop = tt
end-IsFree (Token.word w ∷ rest) stop = tt

and_loop-IsEnd :
    (left : ℕ) (e : RevExpr) (rest : List Token)
    → 1 ≤ left
    → IsEnd rest
    → and_loop left e rest ≡ some (ok (e, rest))
unfolding and_loop
and_loop-IsEnd zero e rest more stop = absurd (omega arith)
and_loop-IsEnd (suc left) e [] more stop = refl
and_loop-IsEnd (suc left) e (Token.left_paren ∷ rest) more stop = absurd stop
and_loop-IsEnd (suc left) e (Token.right_paren ∷ rest) more stop = refl
and_loop-IsEnd (suc left) e (Token.and ∷ rest) more stop = absurd stop
and_loop-IsEnd (suc left) e (Token.or ∷ rest) more stop = refl
and_loop-IsEnd (suc left) e (Token.not ∷ rest) more stop = refl
and_loop-IsEnd (suc left) e (Token.word w ∷ rest) more stop = refl

or_loop-closed :
    (left : ℕ) (e : RevExpr) (rest : List Token)
    → 1 ≤ left
    → or_loop left e (Token.right_paren ∷ rest) ≡ some (ok (e, Token.right_paren ∷ rest))
unfolding or_loop
or_loop-closed zero e rest more = absurd (omega arith)
or_loop-closed (suc left) e rest more = refl

pub or_loop-nil : (left : ℕ) (e : RevExpr) → 1 ≤ left → or_loop left e [] ≡ some (ok (e, []))
unfolding or_loop
or_loop-nil zero e more = absurd (omega arith)
or_loop-nil (suc left) e more = refl

pub unary-and : (ts : List Token) (e : RevExpr) → 1 ≤ length ts → ReadsUnary ts e → ReadsAnd ts e
unfolding parse_and
unary-and ts e some_there reads zero rest free enough = absurd (omega arith)
unary-and ts e some_there reads (suc fuel) rest free enough =
    (fuel, omega arith, rw (reads fuel rest free (omega arith)) refl)

pub and-or : (ts : List Token) (e : RevExpr) → 1 ≤ length ts → ReadsAnd ts e → ReadsOr ts e
unfolding parse_or
and-or ts e some_there reads zero rest stop enough = absurd (omega arith)
and-or ts e some_there reads (suc fuel) rest stop enough =
    let (left, most, read) = reads fuel rest (end-IsFree rest stop) (omega arith) in
    let one = read ∙ and_loop-IsEnd left e rest (omega arith) stop in
    (fuel, omega arith, rw (one) refl)

-- A round of the loop over the operands of an intersection.
and_loop-and :
    (left : ℕ) (a b : RevExpr) (tb rest : List Token)
    → ReadsUnary tb b
    → IsFree rest
    → 4 * length tb + 1 ≤ left
    → (less : ℕ) × (left ≡ suc less)
      × (and_loop left a (Token.and ∷ (tb ++ rest)) ≡ and_loop less (RevExpr.and a b) rest)
unfolding and_loop
and_loop-and zero a b tb rest reads free enough = absurd (omega arith)
and_loop-and (suc left) a b tb rest reads free enough =
    (left, refl, rw (reads left rest free (omega arith)) refl)

or_loop-or :
    (left : ℕ) (a b : RevExpr) (tb rest : List Token)
    → ReadsAnd tb b
    → IsEnd rest
    → 4 * length tb + 2 ≤ left
    → (less : ℕ) × (left ≡ suc less)
      × (or_loop left a (Token.or ∷ (tb ++ rest)) ≡ or_loop less (RevExpr.or a b) rest)
unfolding or_loop
or_loop-or zero a b tb rest reads stop enough = absurd (omega arith)
or_loop-or (suc left) a b tb rest reads stop enough =
    let (spare, most, read) = reads left rest (end-IsFree rest stop) (omega arith) in
    let one = read ∙ and_loop-IsEnd spare b rest (omega arith) stop in (left, refl, rw (one) refl)

pub and_step :
    (ta tb : List Token) (a b : RevExpr)
    → ReadsAnd ta a
    → ReadsUnary tb b
    → ReadsAnd (ta ++ Token.and ∷ tb) (RevExpr.and a b)
and_step ta tb a b reads_a reads_b fuel rest free enough =
    let long = length-append ta (Token.and ∷ tb) in
    let (left, most, read) = reads_a fuel (Token.and ∷ (tb ++ rest)) tt (omega (arith, long)) in
    let (less, one, round) = and_loop-and left a b tb rest reads_b free (omega (arith, long)) in
    (
      less,
      omega (arith, long),
      ap (parse_and fuel) (append_assoc ta (Token.and ∷ tb) rest) ∙ read ∙ round,
    )

pub or_step :
    (ta tb : List Token) (a b : RevExpr)
    → ReadsOr ta a
    → ReadsAnd tb b
    → ReadsOr (ta ++ Token.or ∷ tb) (RevExpr.or a b)
or_step ta tb a b reads_a reads_b fuel rest stop enough =
    let long = length-append ta (Token.or ∷ tb) in
    let (left, most, read) = reads_a fuel (Token.or ∷ (tb ++ rest)) tt (omega (arith, long)) in
    let (less, one, round) = or_loop-or left a b tb rest reads_b stop (omega (arith, long)) in
    (
      less,
      omega (arith, long),
      ap (parse_or fuel) (append_assoc ta (Token.or ∷ tb) rest) ∙ read ∙ round,
    )

parse_unary-group :
    (fuel : ℕ) (ts rest : List Token) (e : RevExpr)
    → parse_or fuel (ts ++ Token.right_paren ∷ rest) ≡ some (ok (e, Token.right_paren ∷ rest))
    → parse_unary (suc (suc fuel)) (Token.left_paren ∷ (ts ++ Token.right_paren ∷ rest))
      ≡ some (ok (e, rest))
unfolding parse_or
parse_unary-group fuel ts rest e h = rw (h) refl

pub group_step : (ts : List Token) (e : RevExpr) → ReadsOr ts e → ReadsUnary (grouped ts) e
group_step ts e reads zero rest free enough = absurd (omega arith)
group_step ts e reads (suc zero) rest free enough = absurd (omega arith)
group_step ts e reads (suc (suc fuel)) rest free enough =
    let long = length-append ts (Token.right_paren ∷ []) in
    let (left, most, read) = reads fuel (Token.right_paren ∷ rest) tt (omega (arith, long)) in
    ap (λ (k : List Token). parse_unary (suc (suc fuel)) (Token.left_paren ∷ k))
      (append_assoc ts (Token.right_paren ∷ []) rest)
    ∙ parse_unary-group fuel ts rest e (read ∙ or_loop-closed left e rest (omega (arith, long)))

pub not_step :
    (ts : List Token) (e : RevExpr) → ReadsUnary ts e → ReadsUnary (Token.not ∷ ts) (RevExpr.not e)
unfolding parse_unary
not_step ts e reads zero rest free enough = absurd (omega arith)
not_step ts e reads (suc fuel) rest free enough = rw (reads fuel rest free (omega arith)) refl

-- What takes two rounds of fuel.
pub word_step :
    (ts : List Token) (e : RevExpr)
    → ((fuel : ℕ) (rest : List Token)
        → IsFree rest
        → parse_unary (suc (suc fuel)) (ts ++ rest) ≡ some (ok (e, rest)))
    → 1 ≤ length ts
    → ReadsUnary ts e
word_step ts e reads some_there zero rest free enough = absurd (omega arith)
word_step ts e reads some_there (suc zero) rest free enough = absurd (omega arith)
word_step ts e reads some_there (suc (suc fuel)) rest free enough = reads fuel rest free

pub parse_unary-word :
    (fuel : ℕ) (name : String) (rest : List Token)
    → IsFree rest
    → parse_unary (suc (suc fuel)) (Token.word name ∷ rest) ≡ parse_word name rest
unfolding parse_or
parse_unary-word fuel name [] free = refl
parse_unary-word fuel name (Token.left_paren ∷ rest) free = absurd free
parse_unary-word fuel name (Token.right_paren ∷ rest) free = refl
parse_unary-word fuel name (Token.and ∷ rest) free = refl
parse_unary-word fuel name (Token.or ∷ rest) free = refl
parse_unary-word fuel name (Token.not ∷ rest) free = refl
parse_unary-word fuel name (Token.word w ∷ rest) free = refl

pub parse_word-ref :
    (name : String) (rest : List Token)
    → strip_prefix name "id:" ≡ none
    → parse_word name rest ≡ some (ok (RevExpr.ref name, rest))
unfolding parse_word
parse_word-ref name rest other = rw (parse_word, other) refl
