-- ===== src/Work/Revset/Parser/Printed.antt =====
-- An expression is parsed back from its tokens.
use mathlib.Core.List.{append-nil}
use omoplata.Prelude.{
  ◌≡◌, refl, ap, sym, ◌∙◌, ℕ, suc, ◌+◌, ◌*◌, ◌≤◌, String, none, some, List, [], ◌∷◌, ◌++◌, length,
  length-append, ok, arith,
}
use omoplata.Work.Revset.{RevExpr, strip_prefix}
use omoplata.Work.Revset.Parser.{
  Token, call, parse_call, parse_word, finished, parse_tokens, parse_or, parse_unary,
}
use omoplata.Work.Revset.Parser.Reading.{
  grouped, IsFree, ReadsUnary, ReadsAnd, ReadsOr, or_loop-nil, unary-and, and-or, and_step, or_step,
  group_step, not_step, word_step, parse_unary-word, parse_word-ref,
}

-- The word of an id is given its prefix.
abbrev pub id_word : String → String
id_word hex = String.◌∷◌ "i" (String.◌∷◌ "d" (String.◌∷◌ ":" hex))

-- Where an expression stands: under an operator that binds tightest, under one that binds as an
-- intersection does, or on its own.
pub data Place : Type 0 where
  operand factor alone : Place

-- The tokens of an expression, with parentheses only where the grammar asks for them: a complement binds
-- tighter than an intersection, and an intersection tighter than a union; both group to the left.
abbrev pub tokens_at : Place → RevExpr → List Token
tokens_at p (RevExpr.ref name) = Token.word name ∷ []
tokens_at p (RevExpr.id hex) = Token.word (id_word hex) ∷ []
tokens_at p RevExpr.all = Token.word "all" ∷ Token.left_paren ∷ Token.right_paren ∷ []
tokens_at p RevExpr.heads = Token.word "heads" ∷ Token.left_paren ∷ Token.right_paren ∷ []
tokens_at p RevExpr.draft = Token.word "draft" ∷ Token.left_paren ∷ Token.right_paren ∷ []
tokens_at p RevExpr.public = Token.word "public" ∷ Token.left_paren ∷ Token.right_paren ∷ []
tokens_at p (RevExpr.landed queue) =
    Token.word "landed" ∷ Token.left_paren ∷ Token.word queue ∷ Token.right_paren ∷ []
tokens_at p (RevExpr.not a) = Token.not ∷ tokens_at operand a
tokens_at operand (RevExpr.and a b) =
    grouped (tokens_at factor a ++ Token.and ∷ tokens_at operand b)
tokens_at factor (RevExpr.and a b) = tokens_at factor a ++ Token.and ∷ tokens_at operand b
tokens_at alone (RevExpr.and a b) = tokens_at factor a ++ Token.and ∷ tokens_at operand b
tokens_at operand (RevExpr.or a b) = grouped (tokens_at alone a ++ Token.or ∷ tokens_at factor b)
tokens_at factor (RevExpr.or a b) = grouped (tokens_at alone a ++ Token.or ∷ tokens_at factor b)
tokens_at alone (RevExpr.or a b) = tokens_at alone a ++ Token.or ∷ tokens_at factor b

abbrev pub tokens_of : RevExpr → List Token
tokens_of e = tokens_at alone e

-- No ref is spelled like an id, and no id is empty.
abbrev pub IsPrintable : RevExpr → Type 0
IsPrintable (RevExpr.ref name) = strip_prefix name "id:" ≡ none
IsPrintable (RevExpr.id String.[]) = ⊥
IsPrintable (RevExpr.and a b) = IsPrintable a × IsPrintable b
IsPrintable (RevExpr.or a b) = IsPrintable a × IsPrintable b
IsPrintable (RevExpr.not a) = IsPrintable a
IsPrintable _ = Unit

some_tokens : (p : Place) (e : RevExpr) → 1 ≤ length (tokens_at p e)
some_tokens p (RevExpr.ref name) = omega arith
some_tokens p (RevExpr.id hex) = omega arith
some_tokens p RevExpr.all = omega arith
some_tokens p RevExpr.heads = omega arith
some_tokens p RevExpr.draft = omega arith
some_tokens p RevExpr.public = omega arith
some_tokens p (RevExpr.landed queue) = omega arith
some_tokens p (RevExpr.not a) = omega arith
some_tokens operand (RevExpr.and a b) = omega arith
some_tokens factor (RevExpr.and a b) =
    omega (arith, length-append (tokens_at factor a) (Token.and ∷ tokens_at operand b))
some_tokens alone (RevExpr.and a b) =
    omega (arith, length-append (tokens_at factor a) (Token.and ∷ tokens_at operand b))
some_tokens operand (RevExpr.or a b) = omega arith
some_tokens factor (RevExpr.or a b) = omega arith
some_tokens alone (RevExpr.or a b) =
    omega (arith, length-append (tokens_at alone a) (Token.or ∷ tokens_at factor b))

-- An expression is read wherever it stands.
abbrev Reads : RevExpr → Type 0
Reads e =
    ReadsUnary (tokens_at operand e) e
    × ReadsAnd (tokens_at factor e) e
    × ReadsOr (tokens_at alone e) e

unary-Reads :
    (e : RevExpr) (ts : List Token)
    → 1 ≤ length ts
    → ReadsUnary ts e
    → ReadsUnary ts e × ReadsAnd ts e × ReadsOr ts e
unary-Reads e ts some_there reads =
    let factors = unary-and ts e some_there reads in
    (reads, factors, and-or ts e some_there factors)

-- What is read in two rounds of fuel, and is written alike everywhere.
word-Reads :
    (e : RevExpr) (ts : List Token)
    → 1 ≤ length ts
    → ((fuel : ℕ) (rest : List Token)
        → IsFree rest
        → parse_unary (suc (suc fuel)) (ts ++ rest) ≡ some (ok (e, rest)))
    → ReadsUnary ts e × ReadsAnd ts e × ReadsOr ts e
word-Reads e ts some_there reads = unary-Reads e ts some_there (word_step ts e reads some_there)

tokens_at-Reads : (e : RevExpr) → IsPrintable e → Reads e
unfolding parse_or parse_call parse_word call
tokens_at-Reads (RevExpr.ref name) printable =
    word-Reads (RevExpr.ref name) (tokens_of (RevExpr.ref name)) (omega arith)
      (λ fuel rest free. parse_unary-word fuel name rest free ∙ parse_word-ref name rest printable)
tokens_at-Reads (RevExpr.id String.[]) printable = absurd printable
tokens_at-Reads (RevExpr.id (String.◌∷◌ c cs)) printable =
    word-Reads (RevExpr.id (String.◌∷◌ c cs)) (tokens_of (RevExpr.id (String.◌∷◌ c cs)))
      (omega arith) (λ fuel rest free. parse_unary-word fuel (id_word (String.◌∷◌ c cs)) rest free)
tokens_at-Reads RevExpr.all printable =
    word-Reads RevExpr.all (tokens_of RevExpr.all) (omega arith) (λ fuel rest free. refl)
tokens_at-Reads RevExpr.heads printable =
    word-Reads RevExpr.heads (tokens_of RevExpr.heads) (omega arith) (λ fuel rest free. refl)
tokens_at-Reads RevExpr.draft printable =
    word-Reads RevExpr.draft (tokens_of RevExpr.draft) (omega arith) (λ fuel rest free. refl)
tokens_at-Reads RevExpr.public printable =
    word-Reads RevExpr.public (tokens_of RevExpr.public) (omega arith) (λ fuel rest free. refl)
tokens_at-Reads (RevExpr.landed queue) printable =
    word-Reads (RevExpr.landed queue) (tokens_of (RevExpr.landed queue)) (omega arith)
      (λ fuel rest free. refl)
tokens_at-Reads (RevExpr.not a) printable =
    let (reads, factors, all_of) = tokens_at-Reads a printable in
    unary-Reads (RevExpr.not a) (tokens_at operand (RevExpr.not a))
      (some_tokens operand (RevExpr.not a)) (not_step (tokens_at operand a) a reads)
tokens_at-Reads (RevExpr.and a b) (left, right) =
    let (unary_a, factors_a, whole_a) = tokens_at-Reads a left in
    let (unary_b, factors_b, whole_b) = tokens_at-Reads b right in
    let factors = and_step (tokens_at factor a) (tokens_at operand b) a b factors_a unary_b in
    let whole =
      and-or (tokens_at factor (RevExpr.and a b)) (RevExpr.and a b)
        (some_tokens factor (RevExpr.and a b)) factors in
    (group_step (tokens_at alone (RevExpr.and a b)) (RevExpr.and a b) whole, factors, whole)
tokens_at-Reads (RevExpr.or a b) (left, right) =
    let (unary_a, factors_a, whole_a) = tokens_at-Reads a left in
    let (unary_b, factors_b, whole_b) = tokens_at-Reads b right in
    let whole = or_step (tokens_at alone a) (tokens_at factor b) a b whole_a factors_b in
    let one = group_step (tokens_at alone (RevExpr.or a b)) (RevExpr.or a b) whole in
    (
      one,
      unary-and (tokens_at factor (RevExpr.or a b)) (RevExpr.or a b)
          (some_tokens factor (RevExpr.or a b)) one,
      whole,
    )

parse_tokens-finished :
    (tokens : List Token)
    → 1 ≤ length tokens
    → parse_tokens tokens ≡ finished (parse_or (4 * length tokens + 4) tokens)
unfolding parse_tokens
parse_tokens-finished [] h = absurd (omega arith)
parse_tokens-finished (t ∷ tokens) h = refl

-- An expression whose refs are not spelled like ids, and whose ids are not empty, is parsed back from its
-- tokens with as few parentheses as its operators allow: a complement binds tighter than an
-- intersection, an intersection tighter than a union, and both group to the left.
pub parse_tokens-tokens_of : (e : RevExpr) → IsPrintable e → parse_tokens (tokens_of e) ≡ ok e
parse_tokens-tokens_of e printable =
    let ts = tokens_at alone e in
    let fuel = 4 * length ts + 4 in
    let (unary, factors, whole) = tokens_at-Reads e printable in
    let (left, most, read) = whole fuel [] tt (omega arith) in
    parse_tokens-finished ts (some_tokens alone e)
    ∙ ap (λ (k : List Token). finished (parse_or fuel k)) (sym (append-nil ts))
    ∙ ap finished (read ∙ or_loop-nil left e (omega (arith, some_tokens alone e)))
