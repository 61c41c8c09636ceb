-- ===== src/Work/Revset.antt =====
-- crates/omoplata-work/src/revset.rs: revset expressions, what they are evaluated against, and their
-- evaluation. A set is a list, and only its members count. The trait of the source is a record of
-- its operations.
pub mod Members
pub mod Parser
use Prim.Native.Char.{code}
use omoplata.Prelude.{
  ℕ, String, Bool, true, false, ◌&&◌, Option, none, some, List, [], ◌∷◌, ◌++◌, contains, filter,
  map, Assoc, get, insert, ◌==◌, nat_eq, string_eq, Result, ok, err, ◌>>=◌, ok_or, if◌then◌else◌,
}
use omoplata.Identity.Change.{CommitId, Phase}
use omoplata.Work.Error.{WorkError, unknown_ref}

pub data RevExpr : Type 0 where
  ref : String → RevExpr
  id : String → RevExpr
  all heads : RevExpr
  and or : RevExpr → RevExpr → RevExpr
  not : RevExpr → RevExpr
  draft public : RevExpr
  landed : String → RevExpr

pub record RevsetContext : Type 0 where
  pub universe : List CommitId
  pub resolve : String → Option CommitId
  pub heads : List CommitId
  pub phase : CommitId → Option Phase
  pub landed : String → List CommitId

abbrev pub has_phase : Phase → Option Phase → Bool
has_phase Phase.draft (some Phase.draft) = true
has_phase Phase.public (some Phase.public) = true
has_phase want found = false

abbrev pub lacks : List CommitId → CommitId → Bool
lacks commits c = if contains commits c then false else true

unfoldable pub phase_filter : RevsetContext → Phase → List CommitId
phase_filter ctx want = filter (λ c. has_phase want (ctx.phase c)) ctx.universe

unfoldable pub eval : RevExpr → RevsetContext → Result WorkError (List CommitId)
unfolding phase_filter
eval (ref name) ctx = do commit ← ok_or (ctx.resolve name) (unknown_ref name); ok (commit ∷ [])
eval (id hex) ctx = ok (if contains ctx.universe hex then hex ∷ [] else [])
eval all ctx = ok ctx.universe
eval heads ctx = ok ctx.heads
eval (and a b) ctx = do l ← eval a ctx; r ← eval b ctx; ok (filter (contains r) l)
eval (or a b) ctx = do l ← eval a ctx; r ← eval b ctx; ok (l ++ r)
eval (not a) ctx = do inner ← eval a ctx; ok (filter (lacks inner) ctx.universe)
eval draft ctx = ok (phase_filter ctx Phase.draft)
eval public ctx = ok (phase_filter ctx Phase.public)
eval (landed queue) ctx = ok (ctx.landed queue)

pub record MapContext : Type 0 where
  pub refs : Assoc String CommitId
  pub phases : Assoc CommitId Phase
  pub extra : List CommitId
  pub queues : List String

abbrev pub new_context : Assoc String CommitId → MapContext
new_context refs = record { refs = refs; phases = []; extra = []; queues = [] }

abbrev pub with_queues : MapContext → List String → MapContext
with_queues ctx names = record ctx { queues = ctx.queues ++ names }

abbrev pub with_phase : MapContext → CommitId → Phase → MapContext
with_phase ctx commit phase = record ctx { phases = insert ctx.phases commit phase }

abbrev pub with_commits : MapContext → List CommitId → MapContext
with_commits ctx commits = record ctx { extra = ctx.extra ++ commits }

-- `text.strip_prefix(prefix)`
abbrev pub strip_prefix : String → String → Option String
strip_prefix text String.[] = some text
strip_prefix String.[] (String.◌∷◌ p ps) = none
strip_prefix (String.◌∷◌ c cs) (String.◌∷◌ p ps) =
    let rest = strip_prefix cs ps in if code c == code p then rest else none

-- What stands before the first slash, if there is one.
abbrev pub first_segment : String → Option String
first_segment String.[] = none
first_segment (String.◌∷◌ c cs) =
    let rest = first_segment cs in
    if code c == b'/'
    then some String.[]
    else elim rest [ none ↦ none | some segment ↦ some (String.◌∷◌ c segment) ]

-- The queue that a ref below `public/` belongs to: the first segment if that is a registered queue,
-- and else the trunk, whose changes may have slashes in their ids.
abbrev pub owner : List String → String → String
owner queues rest = elim (first_segment rest) [
  | none ↦ "trunk"
  | some first ↦ if contains queues first then first else "trunk"
]

unfoldable pub landed_refs : List String → String → Assoc String CommitId → List CommitId
landed_refs queues queue [] = []
landed_refs queues queue ((name, commit) ∷ refs) =
    let rest = landed_refs queues queue refs in
    elim (strip_prefix name "public/") [
      | none ↦ rest
      | some below ↦ if owner queues below == queue then commit ∷ rest else rest
    ]

-- `MapContext` as a context.
unfoldable pub map_context : MapContext → RevsetContext
unfolding landed_refs
map_context ctx = record {
  universe =
      map (λ (r : String × CommitId). r.1) ctx.refs
      ++ (map (λ (p : CommitId × Phase). p.0) ctx.phases ++ ctx.extra);
  resolve = get ctx.refs;
  heads = map (λ (r : String × CommitId). r.1) ctx.refs;
  phase = get ctx.phases;
  landed = λ queue. landed_refs ctx.queues queue ctx.refs;
}
