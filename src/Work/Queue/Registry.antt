-- ===== src/Work/Queue/Registry.antt =====
-- The registry of queues.
use omoplata.Prelude.{◌≡◌, ap, ◌∙◌, none, some, List, [], ◌∷◌, ◌++◌, ok, string_eq, eq_self, arith}
use omoplata.Work.Queue.{
  QueuePolicy, QueueRegistry, find_queue, remove_queue, lookup, resolve, add, remove,
}

find_queue-append :
    (qs : List QueuePolicy) (p : QueuePolicy)
    → find_queue qs p.name ≡ none
    → find_queue (qs ++ p ∷ []) p.name ≡ some p
unfolding find_queue
find_queue-append [] p e = ground (arith, eq_self p.name)
find_queue-append (q ∷ qs) p e = ground (arith, find_queue-append qs p)

remove_queue-append :
    (qs : List QueuePolicy) (p : QueuePolicy)
    → find_queue qs p.name ≡ none
    → remove_queue (qs ++ p ∷ []) p.name ≡ qs
unfolding find_queue remove_queue
remove_queue-append [] p e = ground (arith, eq_self p.name)
remove_queue-append (q ∷ qs) p e = ground (arith, remove_queue-append qs p)

add-parts :
    (reg reg' : QueueRegistry) (p : QueuePolicy)
    → add reg p ≡ ok reg'
    → (lookup reg p.name ≡ none) × (reg' ≡ record { queues = reg.queues ++ p ∷ [] })
unfolding add
add-parts reg reg' p e = ground arith

-- A queue that was registered is the one that its name resolves to, trunk too, and removing it
-- gives it and the registry from before back.
pub add-resolve-remove :
    (reg reg' : QueueRegistry) (p : QueuePolicy)
    → add reg p ≡ ok reg'
    → (resolve reg' p.name ≡ ok p) × (remove reg' p.name ≡ ok (p, reg))
unfolding resolve remove
add-resolve-remove reg reg' p e =
    let (fresh, written) = add-parts reg reg' p e in
    let found : find_queue reg'.queues p.name ≡ some p =
      ap (λ (r : QueueRegistry). find_queue r.queues p.name) written
      ∙ find_queue-append reg.queues p fresh in
    let rest : remove_queue reg'.queues p.name ≡ reg.queues =
      ap (λ (r : QueueRegistry). remove_queue r.queues p.name) written
      ∙ remove_queue-append reg.queues p fresh in
    (rw (found), rw (found) (ap (λ qs. ok (p, record { queues = qs })) rest))
