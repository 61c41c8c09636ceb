-- ===== src/Work/Queue/Refs.antt =====
-- The public ref that landing a change writes.
use omoplata.Prelude.{
  ◌≡◌, inl, inr, refl, sym, ap, ◌∙◌, ◌≤◌, String, Option, none, some, Result, ok, err, ◌==◌,
  string_eq, get, get-insert, get-remove, Option-cases, arith, if◌then◌else◌,
}
use omoplata.Identity.Change.{ChangeId, CommitId, ChangeGraph, tip}
use omoplata.Work.Error.{WorkError}
use omoplata.Work.OpLog.{OpLog, set_ref, Refs, apply_op, refs_now, next_seq, u64_max}
use omoplata.Work.OpLog.Activity.{IsLog}
use omoplata.Work.OpLog.Undo.{refs_now-append}
use omoplata.Work.Queue.{World, publish, record_ref, land_found, land_change}

-- The world after a publication, as `land_found` makes it.
abbrev found_world :
    World → String → String → ChangeId → Result WorkError ChangeGraph → Result WorkError World
found_world w ref note id (err e) = err e
found_world w ref note id (ok g) = ok (record { graph = g; log = record_ref w.log g ref note id })

found_log :
    (w w' : World) (ref note : String) (id : ChangeId) (r : Result WorkError ChangeGraph)
    → found_world w ref note id r ≡ ok w'
    → w'.log ≡ record_ref w.log w'.graph ref note id
found_log w w' ref note id (err d) e = absurd (cc (e))
found_log w w' ref note id (ok g) e = ground arith

land_change-log :
    (w w' : World) (ref note : String) (id : ChangeId)
    → land_change w ref note id ≡ ok w'
    → w'.log ≡ record_ref w.log w'.graph ref note id
unfolding land_change
land_change-log w w' ref note id e = elim (Option-cases (get w.graph.changes id)) [
  | inl missing ↦ absurd (cc (sym (ap (land_found w ref note id) missing) ∙ e))
  | inr (change, at) ↦
      found_log w w' ref note id (publish w.graph id change)
        (sym (ap (land_found w ref note id) at) ∙ e)
]

get-set_ref :
    (refs : Refs) (ref : String) (old new : Option CommitId) (j : String)
    → get (apply_op (set_ref ref old new) refs) j ≡ (if ref == j then new else get refs j)
unfolding apply_op
get-set_ref refs ref old none j = get-remove refs ref j
get-set_ref refs ref old (some c) j = get-insert refs ref j c

-- Where a change lands, in a world with a well-formed log whose next number fits a word, its ref
-- holds the tip that the change has then, and no other ref changes.
pub land_change-refs :
    (w w' : World) (ref note : String) (id : ChangeId) (j : String)
    → IsLog 0 w.log.ops
    → next_seq w.log ≤ u64_max
    → land_change w ref note id ≡ ok w'
    → get (refs_now w'.log) j ≡ (if ref == j then tip w'.graph id else get (refs_now w.log) j)
land_change-refs w w' ref note id j log short e =
    let kind = set_ref ref (get (refs_now w.log) ref) (tip w'.graph id) in
    ap (λ (l : OpLog). get (refs_now l) j) (land_change-log w w' ref note id e)
    ∙ ap (λ refs. get refs j) (refs_now-append w.log kind (some note) log (λ t. refl) short)
    ∙ get-set_ref (refs_now w.log) ref (get (refs_now w.log) ref) (tip w'.graph id) j
