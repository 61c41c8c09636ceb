-- ===== src/Work/Queue/Names.antt =====
-- crates/omoplata-work/src/queue.rs: the refs, notes and messages of a landing.
use Prim.Native.String.{◌++◌, slice}
use omoplata.Prelude.{ℕ, zero, suc, ◌/◌, ◌%◌, ◌+◌, String, ltb, ◌==◌, string_eq, if◌then◌else◌}
use omoplata.Identity.Change.{ChangeId}

abbrev pub digit : ℕ → String
digit d = slice "0123456789" d (d + 1)

-- `format!("{}", n)`: a number has at most as many digits as its value and one more.
unfoldable pub digits : ℕ → ℕ → String
digits zero n = ""
digits (suc fuel) n =
    let front = digits fuel (n / 10) in (if ltb n 10 then "" else front) ++ digit (n % 10)

abbrev pub decimal : ℕ → String
decimal n = digits (n + 1) n

unfoldable pub queue_ref : String → ChangeId → String
queue_ref queue change =
    if queue == "trunk" then "public/" ++ change else ("public/" ++ queue ++ "/" ++ change)

abbrev pub land_ref : ChangeId → String
land_ref change = "public/" ++ change

abbrev pub land_note : ChangeId → String
land_note change = "land change " ++ change

unfoldable pub queue_note : String → ChangeId → String
queue_note queue change =
    if queue == "trunk"
    then "land change " ++ change
    else ("land change " ++ change ++ " (queue " ++ queue ++ ")")

abbrev pub landed_message : String → String
landed_message id = "Submission " ++ id ++ " landed successfully"

unfoldable pub queue_message : String → String → ℕ → String
queue_message id queue carried =
    "Submission "
    ++ id
    ++ " landed in queue "
    ++ queue
    ++ (if ltb 0 carried then ", carrying " ++ decimal carried ++ " conflict value(s)" else "")

abbrev pub named_definition : String → String → String
named_definition path def = path ++ " (" ++ def ++ ")"
