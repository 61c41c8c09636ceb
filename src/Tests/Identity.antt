-- ===== src/Tests/Identity.antt =====
-- The change graph, with a change of two commits where the second supersedes the first.
use omoplata.Prelude.{◌≡◌, refl, [], ◌∷◌, some, string_eq, ok, get, insert, remove}
use omoplata.Identity.Change.{
  draft, public, CommitId, Change, ChangeGraph, new, register, add_change, reaches, reaches_loop,
  supersede, set_phase, tip_loop, tip,
}
use omoplata.Identity.Change.WellFormed.{
  IsWellFormed, IsReachable, empty, adds_change, amends, supersedes, sets_phase,
  IsReachable-IsWellFormed,
}
use omoplata.Identity.Change.Phases.{IsPublic, Amends-IsPublic}

abbrev amended : Change
amended = record { id = "c1"; revisions = "a" ∷ "b" ∷ []; phase = draft }

abbrev start : ChangeGraph
start = record {
  changes = ("c1", amended) ∷ [];
  commit_owner = ("b", "c1") ∷ ("a", "c1") ∷ [];
  superseded_by = [];
}

abbrev linked : ChangeGraph
linked = record start { superseded_by = ("a", "b") ∷ [] }

abbrev landed : ChangeGraph
landed = record linked { changes = ("c1", record amended { phase = public }) ∷ [] }

added : add_change new amended ≡ start
unfolding add_change register insert remove
added = refl

links : supersede start "a" "b" ≡ ok linked
unfolding supersede get reaches reaches_loop insert remove
links = refl

lands : set_phase linked "c1" public ≡ ok landed
unfolding set_phase get insert remove
lands = refl

newest : tip linked "c1" ≡ some "b"
unfolding tip tip_loop get
newest = refl

start-IsReachable : IsReachable start
unfolding add_change register insert remove
start-IsReachable = adds_change amended empty

IsReachable-IsWellFormed_example : IsWellFormed linked
IsReachable-IsWellFormed_example =
    IsReachable-IsWellFormed (amends start-IsReachable (supersedes "a" "b" links))

landed_here : IsPublic landed "c1"
unfolding get
landed_here = (record amended { phase = public }, refl, refl)

again : set_phase landed "c1" public ≡ ok landed
unfolding set_phase get insert remove
again = refl

Amends-IsPublic_example : IsPublic landed "c1"
Amends-IsPublic_example =
    Amends-IsPublic landed landed "c1" (sets_phase "c1" public again) landed_here

owner_a : get {K = CommitId} landed.commit_owner "a" ≡ some "c1"
unfolding get
owner_a = refl

owner_b : get {K = CommitId} landed.commit_owner "b" ≡ some "c1"
unfolding get
owner_b = refl

change_of : get {K = CommitId} linked.changes "c1" ≡ some amended
unfolding get
change_of = refl

linked-IsReachable : IsReachable linked
linked-IsReachable = amends start-IsReachable (supersedes "a" "b" links)
