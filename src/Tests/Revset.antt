-- ===== src/Tests/Revset.antt =====
-- Revset expressions at a concrete context.
use omoplata.Prelude.{
  Result, ◌*◌, ◌+◌, length, ◌≡◌, refl, ◌⊎◌, String, true, none, List, [], ◌∷◌, contains, string_eq,
  ok, err, some,
}
use omoplata.Identity.Change.{CommitId, Phase}
use omoplata.Work.Revset.Parser.{Token, call, parse_call, parse_word, parse_or, parse_tokens, parse}
use omoplata.Work.Revset.Parser.Printed.{IsPrintable, tokens_of, parse_tokens-tokens_of}
use omoplata.Work.Revset.Parser.Ends.{parse_or-ends}
use omoplata.Work.Error.{WorkError, unknown_ref}
use omoplata.Work.Revset.{
  ref, RevExpr, draft, landed, and, or, not, MapContext, new_context, with_phase, with_queues,
  map_context, eval,
}
use omoplata.Work.Revset.Members.{holds, mentions, eval-cases}

abbrev refs : MapContext
refs =
    with_queues
      (with_phase
        (new_context (("main", "a") ∷ ("public/nightly/c1", "b") ∷ ("public/ws/hotfix", "c") ∷ []))
        "a" Phase.draft)
      ("nightly" ∷ [])

abbrev expr : RevExpr
expr = and (not (landed "trunk")) draft

eval-cases_example :
    ((commits : List CommitId) × (eval expr (map_context refs) ≡ ok commits)
      × ((c : CommitId) → contains commits c ≡ holds (map_context refs) expr c))
    ⊎ ((name : String) × (eval expr (map_context refs) ≡ err (unknown_ref name))
        × (mentions expr name ≡ true)
        × ((map_context refs).resolve name ≡ none))
eval-cases_example = eval-cases (map_context refs) expr

landed_on_trunk : eval (landed "trunk") (map_context refs) ≡ ok ("c" ∷ [])
unfolding eval map_context
landed_on_trunk = refl

abbrev sample : List Token
sample = Token.not ∷ Token.word "draft" ∷ Token.left_paren ∷ Token.right_paren ∷ []

parse_or-ends_example :
    (r : Result WorkError (RevExpr × List Token)) × (parse_or (4 * length sample + 4) sample
      ≡ some r)
parse_or-ends_example = parse_or-ends sample

parsed : parse "~draft() & main" ≡ ok (and (not draft) (ref "main"))
unfolding parse call parse_call parse_word
parsed = refl

-- A union of three, with an intersection in the middle.
abbrev joined : RevExpr
joined = or (or (ref "main") (and draft (not (landed "trunk")))) (RevExpr.id "a1")

parsed_joined : parse "main | draft() & ~landed(trunk) | id:a1" ≡ ok joined
unfolding parse call parse_call parse_word
parsed_joined = refl

joined-IsPrintable : IsPrintable joined
joined-IsPrintable = ((refl, (tt, tt)), tt)

parse_tokens-tokens_of_example : parse_tokens (tokens_of joined) ≡ ok joined
parse_tokens-tokens_of_example = parse_tokens-tokens_of joined joined-IsPrintable
