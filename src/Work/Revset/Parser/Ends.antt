-- ===== src/Work/Revset/Parser/Ends.antt =====
-- The parser always ends: its fuel is enough.
use omoplata.Prelude.{
  ◌≡◌, refl, ℕ, zero, suc, ◌+◌, ◌*◌, ◌≤◌, String, Option, none, some, List, [], ◌∷◌, length, Result,
  ok, err, arith,
}
use omoplata.Work.Error.{WorkError}
use omoplata.Work.Revset.{RevExpr, strip_prefix}
use omoplata.Work.Revset.Parser.{
  Token, Parsed, and_then, call, call_parsed, parse_call, parse_word, closed, parse_or, or_loop,
  parse_and, and_loop, parse_unary, parse_primary,
}

-- The parser returned, and left no more tokens than this.
abbrev pub Ends : ℕ → Parsed → Type 0
Ends n none = ⊥
Ends n (some (err e)) = Unit
Ends n (some (ok (expr, tokens))) = length tokens ≤ n

and_then-Ends :
    (n m : ℕ) (p : Parsed) (rest : RevExpr → List Token → Parsed)
    → Ends n p
    → ((expr : RevExpr) (tokens : List Token) → length tokens ≤ n → Ends m (rest expr tokens))
    → Ends m (and_then p rest)
and_then-Ends n m none rest ends more = absurd ends
and_then-Ends n m (some (err e)) rest ends more = tt
and_then-Ends n m (some (ok (expr, tokens))) rest ends more = more expr tokens ends

call_parsed-Ends :
    (n : ℕ) (r : Result WorkError RevExpr) (tokens : List Token)
    → length tokens ≤ n
    → Ends n (call_parsed r tokens)
call_parsed-Ends n (err e) tokens h = tt
call_parsed-Ends n (ok expr) tokens h = h

parse_call-Ends :
    (n : ℕ) (name : String) (tokens : List Token)
    → length tokens ≤ n
    → Ends n (parse_call name tokens)
unfolding parse_call
parse_call-Ends n name (Token.word arg ∷ Token.right_paren ∷ tokens) h =
    call_parsed-Ends n (call name (some arg)) tokens (omega arith)
parse_call-Ends n name (Token.right_paren ∷ tokens) h =
    call_parsed-Ends n (call name none) tokens (omega arith)
parse_call-Ends n name tokens h = tt

parse_word-Ends :
    (n : ℕ) (name : String) (tokens : List Token)
    → length tokens ≤ n
    → Ends n (parse_word name tokens)
unfolding parse_word
parse_word-Ends n name tokens h = word_kind (strip_prefix name "id:")
  where
    word_kind :
        (o : Option String)
        → Ends n (elim o [
          | none ↦ some (ok (RevExpr.ref name, tokens))
          | some String.[] ↦ some (err (WorkError.parse "empty id: literal"))
          | some (String.◌∷◌ c cs) ↦ some (ok (RevExpr.id (String.◌∷◌ c cs), tokens))
        ])
    word_kind none = h
    word_kind (some String.[]) = tt
    word_kind (some (String.◌∷◌ c cs)) = h

closed-Ends :
    (n : ℕ) (expr : RevExpr) (tokens : List Token) → length tokens ≤ n → Ends n (closed expr tokens)
closed-Ends n expr [] h = tt
closed-Ends n expr (Token.right_paren ∷ tokens) h = omega arith
closed-Ends n expr (Token.left_paren ∷ tokens) h = tt
closed-Ends n expr (Token.and ∷ tokens) h = tt
closed-Ends n expr (Token.or ∷ tokens) h = tt
closed-Ends n expr (Token.not ∷ tokens) h = tt
closed-Ends n expr (Token.word w ∷ tokens) h = tt

Ends-more : (n : ℕ) (p : Parsed) → Ends n p → Ends (suc n) p
Ends-more n none ends = absurd ends
Ends-more n (some (err e)) ends = tt
Ends-more n (some (ok (expr, tokens))) ends = omega arith

mutual
  unfolding parse_or

  parse_or-Ends :
      (fuel n : ℕ) (tokens : List Token)
      → length tokens ≤ n
      → 4 * n + 4 ≤ fuel
      → Ends n (parse_or fuel tokens)
  parse_or-Ends zero n tokens h enough = absurd (omega arith)
  parse_or-Ends (suc fuel) n tokens h enough =
      and_then-Ends n n (parse_and fuel tokens) (λ left rest. or_loop fuel left rest)
        (parse_and-Ends fuel n tokens h (omega arith))
        (λ left rest short. or_loop-Ends fuel n left rest short (omega arith))

  or_loop-Ends :
      (fuel n : ℕ) (left : RevExpr) (tokens : List Token)
      → length tokens ≤ n
      → 4 * n + 1 ≤ fuel
      → Ends n (or_loop fuel left tokens)
  or_loop-Ends zero n left tokens h enough = absurd (omega arith)
  or_loop-Ends (suc fuel) zero left (Token.or ∷ tokens) h enough = absurd (omega arith)
  or_loop-Ends (suc fuel) (suc n) left (Token.or ∷ tokens) h enough =
      and_then-Ends n (suc n) (parse_and fuel tokens)
        (λ right rest. or_loop fuel (RevExpr.or left right) rest)
        (parse_and-Ends fuel n tokens (omega arith) (omega arith))
        (λ right rest short.
          Ends-more n (or_loop fuel (RevExpr.or left right) rest)
            (or_loop-Ends fuel n (RevExpr.or left right) rest short (omega arith)))
  or_loop-Ends (suc fuel) n left [] h enough = h
  or_loop-Ends (suc fuel) n left (Token.and ∷ tokens) h enough = h
  or_loop-Ends (suc fuel) n left (Token.not ∷ tokens) h enough = h
  or_loop-Ends (suc fuel) n left (Token.left_paren ∷ tokens) h enough = h
  or_loop-Ends (suc fuel) n left (Token.right_paren ∷ tokens) h enough = h
  or_loop-Ends (suc fuel) n left (Token.word w ∷ tokens) h enough = h

  parse_and-Ends :
      (fuel n : ℕ) (tokens : List Token)
      → length tokens ≤ n
      → 4 * n + 3 ≤ fuel
      → Ends n (parse_and fuel tokens)
  parse_and-Ends zero n tokens h enough = absurd (omega arith)
  parse_and-Ends (suc fuel) n tokens h enough =
      and_then-Ends n n (parse_unary fuel tokens) (λ left rest. and_loop fuel left rest)
        (parse_unary-Ends fuel n tokens h (omega arith))
        (λ left rest short. and_loop-Ends fuel n left rest short (omega arith))

  and_loop-Ends :
      (fuel n : ℕ) (left : RevExpr) (tokens : List Token)
      → length tokens ≤ n
      → 4 * n + 1 ≤ fuel
      → Ends n (and_loop fuel left tokens)
  and_loop-Ends zero n left tokens h enough = absurd (omega arith)
  and_loop-Ends (suc fuel) zero left (Token.and ∷ tokens) h enough = absurd (omega arith)
  and_loop-Ends (suc fuel) (suc n) left (Token.and ∷ tokens) h enough =
      and_then-Ends n (suc n) (parse_unary fuel tokens)
        (λ right rest. and_loop fuel (RevExpr.and left right) rest)
        (parse_unary-Ends fuel n tokens (omega arith) (omega arith))
        (λ right rest short.
          Ends-more n (and_loop fuel (RevExpr.and left right) rest)
            (and_loop-Ends fuel n (RevExpr.and left right) rest short (omega arith)))
  and_loop-Ends (suc fuel) n left [] h enough = h
  and_loop-Ends (suc fuel) n left (Token.or ∷ tokens) h enough = h
  and_loop-Ends (suc fuel) n left (Token.not ∷ tokens) h enough = h
  and_loop-Ends (suc fuel) n left (Token.left_paren ∷ tokens) h enough = h
  and_loop-Ends (suc fuel) n left (Token.right_paren ∷ tokens) h enough = h
  and_loop-Ends (suc fuel) n left (Token.word w ∷ tokens) h enough = h

  parse_unary-Ends :
      (fuel n : ℕ) (tokens : List Token)
      → length tokens ≤ n
      → 4 * n + 2 ≤ fuel
      → Ends n (parse_unary fuel tokens)
  parse_unary-Ends zero n tokens h enough = absurd (omega arith)
  parse_unary-Ends (suc fuel) zero (Token.not ∷ tokens) h enough = absurd (omega arith)
  parse_unary-Ends (suc fuel) (suc n) (Token.not ∷ tokens) h enough =
      and_then-Ends n (suc n) (parse_unary fuel tokens)
        (λ inner rest. some (ok (RevExpr.not inner, rest)))
        (parse_unary-Ends fuel n tokens (omega arith) (omega arith))
        (λ inner rest short. omega arith)
  parse_unary-Ends (suc fuel) n [] h enough = parse_primary-Ends fuel n [] h (omega arith)
  parse_unary-Ends (suc fuel) n (Token.and ∷ tokens) h enough =
      parse_primary-Ends fuel n (Token.and ∷ tokens) h (omega arith)
  parse_unary-Ends (suc fuel) n (Token.or ∷ tokens) h enough =
      parse_primary-Ends fuel n (Token.or ∷ tokens) h (omega arith)
  parse_unary-Ends (suc fuel) n (Token.left_paren ∷ tokens) h enough =
      parse_primary-Ends fuel n (Token.left_paren ∷ tokens) h (omega arith)
  parse_unary-Ends (suc fuel) n (Token.right_paren ∷ tokens) h enough =
      parse_primary-Ends fuel n (Token.right_paren ∷ tokens) h (omega arith)
  parse_unary-Ends (suc fuel) n (Token.word w ∷ tokens) h enough =
      parse_primary-Ends fuel n (Token.word w ∷ tokens) h (omega arith)

  parse_primary-Ends :
      (fuel n : ℕ) (tokens : List Token)
      → length tokens ≤ n
      → 4 * n + 1 ≤ fuel
      → Ends n (parse_primary fuel tokens)
  parse_primary-Ends zero n tokens h enough = absurd (omega arith)
  parse_primary-Ends (suc fuel) zero (Token.left_paren ∷ tokens) h enough = absurd (omega arith)
  parse_primary-Ends (suc fuel) (suc n) (Token.left_paren ∷ tokens) h enough =
      and_then-Ends n (suc n) (parse_or fuel tokens) closed
        (parse_or-Ends fuel n tokens (omega arith) (omega arith))
        (λ inner rest short. Ends-more n (closed inner rest) (closed-Ends n inner rest short))
  parse_primary-Ends (suc fuel) n (Token.word name ∷ Token.left_paren ∷ tokens) h enough =
      parse_call-Ends n name tokens (omega arith)
  parse_primary-Ends (suc fuel) n (Token.word name ∷ []) h enough =
      parse_word-Ends n name [] (omega arith)
  parse_primary-Ends (suc fuel) n (Token.word name ∷ Token.and ∷ tokens) h enough =
      parse_word-Ends n name (Token.and ∷ tokens) (omega arith)
  parse_primary-Ends (suc fuel) n (Token.word name ∷ Token.or ∷ tokens) h enough =
      parse_word-Ends n name (Token.or ∷ tokens) (omega arith)
  parse_primary-Ends (suc fuel) n (Token.word name ∷ Token.not ∷ tokens) h enough =
      parse_word-Ends n name (Token.not ∷ tokens) (omega arith)
  parse_primary-Ends (suc fuel) n (Token.word name ∷ Token.right_paren ∷ tokens) h enough =
      parse_word-Ends n name (Token.right_paren ∷ tokens) (omega arith)
  parse_primary-Ends (suc fuel) n (Token.word name ∷ Token.word w ∷ tokens) h enough =
      parse_word-Ends n name (Token.word w ∷ tokens) (omega arith)
  parse_primary-Ends (suc fuel) n (Token.and ∷ tokens) h enough = tt
  parse_primary-Ends (suc fuel) n (Token.or ∷ tokens) h enough = tt
  parse_primary-Ends (suc fuel) n (Token.not ∷ tokens) h enough = tt
  parse_primary-Ends (suc fuel) n (Token.right_paren ∷ tokens) h enough = tt
  parse_primary-Ends (suc fuel) n [] h enough = tt

-- The fuel that the parser is given for its tokens is enough: it returns a result or an error.
pub parse_or-ends :
    (tokens : List Token)
    → (r : Result WorkError (RevExpr × List Token)) × (parse_or (4 * length tokens + 4) tokens
        ≡ some r)
parse_or-ends tokens =
    returned_by (parse_or (4 * length tokens + 4) tokens)
      (parse_or-Ends (4 * length tokens + 4) (length tokens) tokens (omega arith) (omega arith))
  where
    returned_by :
        (p : Parsed)
        → Ends (length tokens) p
        → (r : Result WorkError (RevExpr × List Token)) × (p ≡ some r)
    returned_by none ends = absurd ends
    returned_by (some r) ends = (r, refl)
