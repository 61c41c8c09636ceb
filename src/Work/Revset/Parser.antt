-- ===== src/Work/Revset/Parser.antt =====
-- crates/omoplata-work/src/revset.rs: the tokenizer, the recursive-descent parser and `query`. The
-- parser is the tokens that are left; a function of it that calls another one, or itself, has less
-- fuel for it.
pub mod Ends
pub mod Reading
pub mod Printed
use Prim.Native.Char.{Char, code}
use Prim.Native.String.{◌++◌, count}
use omoplata.Prelude.{
  ℕ, zero, suc, ◌+◌, ◌*◌, String, Bool, true, false, ◌&&◌, ◌||◌, Option, none, some, List, [], ◌∷◌,
  length, leb, ltb, ◌==◌, nat_eq, string_eq, Result, ok, err, ◌>>=◌, if◌then◌else◌,
}
use omoplata.Identity.Change.{CommitId}
use omoplata.Work.Error.{WorkError}
use omoplata.Work.Revset.{RevExpr, RevsetContext, strip_prefix, eval}

pub data Token : Type 0 where
  and or not left_paren right_paren : Token
  word : String → Token

abbrev pub in_range : ℕ → ℕ → ℕ → Bool
in_range lo c hi = leb lo c && leb c hi

-- `char::is_whitespace`
abbrev pub is_whitespace : ℕ → Bool
is_whitespace c =
    in_range 9 c 13
    || (c == 0x20
        || (c == 0x85
            || (c == 0xa0
                || (c == 0x1680
                    || (in_range 0x2000 c 0x200a
                        || (c == 0x2028
                            || (c == 0x2029 || (c == 0x202f || (c == 0x205f || c == 0x3000)))))))))

abbrev pub is_word_char : ℕ → Bool
is_word_char c =
    in_range b'0' c b'9'
    || (in_range b'a' c b'z'
        || (in_range b'A' c b'Z'
            || (c == b'_' || (c == b'-' || (c == b'.' || (c == b'/' || c == b':'))))))

-- The word characters at the head.
unfoldable pub word_prefix : String → String
word_prefix String.[] = String.[]
word_prefix (String.◌∷◌ c cs) =
    let rest = word_prefix cs in if is_word_char (code c) then String.◌∷◌ c rest else String.[]

abbrev pub cons_token : Token → Result WorkError (List Token) → Result WorkError (List Token)
cons_token t (err e) = err e
cons_token t (ok tokens) = ok (t ∷ tokens)

-- The tokens behind the next `skip` characters.
unfoldable pub tokenize_from : (skip : ℕ) → String → Result WorkError (List Token)
unfolding word_prefix
tokenize_from skip String.[] = ok []
tokenize_from (suc skip) (String.◌∷◌ c cs) = tokenize_from skip cs
tokenize_from zero (String.◌∷◌ c cs) =
    let rest = tokenize_from zero cs in
    let tail = word_prefix cs in
    let behind = tokenize_from (count tail) cs in
    if is_whitespace (code c)
    then rest
    else if code c == b'&'
    then cons_token Token.and rest
    else if code c == b'|'
    then cons_token Token.or rest
    else if code c == b'~'
    then cons_token Token.not rest
    else if code c == b'('
    then cons_token Token.left_paren rest
    else if code c == b')'
    then cons_token Token.right_paren rest
    else if is_word_char (code c)
    then cons_token (Token.word (String.◌∷◌ c tail)) behind
    else err (WorkError.parse ("unexpected character '" ++ (String.◌∷◌ c String.[] ++ "'")))

abbrev pub tokenize : String → Result WorkError (List Token)
tokenize input = tokenize_from 0 input

-- `none` means that the fuel ran out.
abbrev pub Parsed : Type 0
Parsed = Option (Result WorkError (RevExpr × List Token))

abbrev pub and_then : Parsed → (RevExpr → List Token → Parsed) → Parsed
and_then none rest = none
and_then (some (err e)) rest = some (err e)
and_then (some (ok (expr, tokens))) rest = rest expr tokens

abbrev pub failed : String → Parsed
failed reason = some (err (WorkError.parse reason))

-- The calls without an argument and with one.
unfoldable pub call : String → Option String → Result WorkError RevExpr
call name none =
    if name == "all"
    then ok RevExpr.all
    else if name == "heads"
    then ok RevExpr.heads
    else if name == "draft"
    then ok RevExpr.draft
    else if name == "public"
    then ok RevExpr.public
    else if name == "landed"
    then ok (RevExpr.landed "trunk")
    else err (WorkError.parse ("unknown function '" ++ (name ++ "'")))
call name (some arg) =
    if name == "landed"
    then ok (RevExpr.landed arg)
    else err (
        WorkError.parse ("function '" ++ (name ++ ("' takes no argument (got '" ++ (arg ++ "')")))))

abbrev pub call_parsed : Result WorkError RevExpr → List Token → Parsed
call_parsed (err e) tokens = some (err e)
call_parsed (ok expr) tokens = some (ok (expr, tokens))

-- Behind the opening parenthesis of a call.
unfoldable pub parse_call : String → List Token → Parsed
unfolding call
parse_call name (Token.word arg ∷ Token.right_paren ∷ tokens) =
    call_parsed (call name (some arg)) tokens
parse_call name (Token.right_paren ∷ tokens) = call_parsed (call name none) tokens
parse_call name tokens = failed ("expected ')' after " ++ (name ++ "("))

-- A word that no parenthesis follows.
unfoldable pub parse_word : String → List Token → Parsed
parse_word name tokens = elim (strip_prefix name "id:") [
  | none ↦ some (ok (RevExpr.ref name, tokens))
  | some String.[] ↦ failed "empty id: literal"
  | some (String.◌∷◌ c cs) ↦ some (ok (RevExpr.id (String.◌∷◌ c cs), tokens))
]

abbrev pub closed : RevExpr → List Token → Parsed
closed inner (Token.right_paren ∷ tokens) = some (ok (inner, tokens))
closed inner tokens = failed "expected ')'"

-- The text of a token, as `{:?}` writes it.
abbrev pub token_text : Token → String
token_text Token.and = "And"
token_text Token.or = "Or"
token_text Token.not = "Not"
token_text Token.left_paren = "LParen"
token_text Token.right_paren = "RParen"
token_text (Token.word w) = "Word"

unfoldable mutual
  pub parse_or : ℕ → List Token → Parsed
  parse_or zero tokens = none
  parse_or (suc fuel) tokens =
      and_then (parse_and fuel tokens) (λ left rest. or_loop fuel left rest)

  pub or_loop : ℕ → RevExpr → List Token → Parsed
  or_loop zero left tokens = none
  or_loop (suc fuel) left (Token.or ∷ tokens) =
      and_then (parse_and fuel tokens) (λ right rest. or_loop fuel (RevExpr.or left right) rest)
  or_loop (suc fuel) left tokens = some (ok (left, tokens))

  pub parse_and : ℕ → List Token → Parsed
  parse_and zero tokens = none
  parse_and (suc fuel) tokens =
      and_then (parse_unary fuel tokens) (λ left rest. and_loop fuel left rest)

  pub and_loop : ℕ → RevExpr → List Token → Parsed
  and_loop zero left tokens = none
  and_loop (suc fuel) left (Token.and ∷ tokens) =
      and_then (parse_unary fuel tokens) (λ right rest. and_loop fuel (RevExpr.and left right) rest)
  and_loop (suc fuel) left tokens = some (ok (left, tokens))

  pub parse_unary : ℕ → List Token → Parsed
  parse_unary zero tokens = none
  parse_unary (suc fuel) (Token.not ∷ tokens) =
      and_then (parse_unary fuel tokens) (λ inner rest. some (ok (RevExpr.not inner, rest)))
  parse_unary (suc fuel) tokens = parse_primary fuel tokens

  pub parse_primary : ℕ → List Token → Parsed
  parse_primary zero tokens = none
  parse_primary (suc fuel) (Token.left_paren ∷ tokens) = and_then (parse_or fuel tokens) closed
  parse_primary (suc fuel) (Token.word name ∷ Token.left_paren ∷ tokens) = parse_call name tokens
  parse_primary (suc fuel) (Token.word name ∷ tokens) = parse_word name tokens
  parse_primary (suc fuel) (t ∷ tokens) = failed ("unexpected token " ++ token_text t)
  parse_primary (suc fuel) [] = failed "unexpected end of input"

abbrev pub whole_input : RevExpr → List Token → Result WorkError RevExpr
whole_input expr [] = ok expr
whole_input expr (t ∷ tokens) = err (WorkError.parse "trailing tokens after expression")

-- The end of `parse`. Fuel of four for each token and four more is enough (Parser/Ends).
abbrev pub finished : Parsed → Result WorkError RevExpr
finished none = err (WorkError.parse "out of fuel")
finished (some (err e)) = err e
finished (some (ok (expr, tokens))) = whole_input expr tokens

unfoldable pub parse_tokens : List Token → Result WorkError RevExpr
unfolding parse_or
parse_tokens [] = err (WorkError.parse "empty expression")
parse_tokens (t ∷ tokens) = finished (parse_or (4 * length (t ∷ tokens) + 4) (t ∷ tokens))

unfoldable pub parse : String → Result WorkError RevExpr
unfolding tokenize_from parse_tokens
parse input = do tokens ← tokenize input; parse_tokens tokens

unfoldable pub query : String → RevsetContext → Result WorkError (List CommitId)
unfolding parse eval
query input ctx = do expr ← parse input; eval expr ctx
