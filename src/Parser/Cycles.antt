-- ===== src/Parser/Cycles.antt =====
-- `VisitForCycle` and `FindCycle`, in manager/src/ConfigParser.cpp: a depth-first search. A mark is 0, 1
-- for a service on the current path, or 2 for one that is finished.
use improved_process_manager.Base.{
  ℕ, zero, suc, Bool, false, ◌||◌, List, [], ◌∷◌, ◌++◌, Option, none, some, ◌==◌, if◌then◌else◌,
  length, get_elem?, get_or, set, replicate, Text, text, same_text,
}
use improved_process_manager.Config.{ServiceConfig}

-- The marks after a search that found no cycle, or the cycle. `exhausted` says that the fuel ran out,
-- and `missing` that `index.at` has no such name and throws.
pub data Visit : Type 0 where
  finished : List ℕ → Visit
  cycle : Text → Visit
  exhausted missing : Visit

-- The index of each name: the last service that has it.
unfoldable pub position : List ServiceConfig → Text → Option ℕ
position [] name = none
position (s ∷ ss) name =
    let here : Option ℕ = if same_text s.name name then some 0 else none in
    elim (position ss name) [ none ↦ here | some i ↦ some (suc i) ]

-- The path from the repeated name on, as `a -> b -> `.
unfoldable pub from_name : Bool → List Text → Text → Text
from_name inside [] dependency = []
from_name inside (name ∷ names) dependency =
    let now = inside || same_text name dependency in
    let rest = from_name now names dependency in if now then name ++ (text " -> " ++ rest) else rest

unfoldable pub describe_cycle : List Text → Text → Text
describe_cycle path dependency = from_name false path dependency ++ dependency

abbrev pub and_then : Visit → (List ℕ → Visit) → Visit
and_then (finished marks) next = next marks
and_then (cycle names) next = cycle names
and_then exhausted next = exhausted
and_then missing next = missing

-- One round of the loop over the dependencies of a service, for the index of one.
unfoldable pub visit_one : (ℕ → List ℕ → Visit) → List Text → Text → Option ℕ → List ℕ → Visit
visit_one inner path dependency none marks = missing
visit_one inner path dependency (some next) marks =
    if get_or marks next 0 == 1
    then cycle (describe_cycle path dependency)
    else if get_or marks next 0 == 0
    then inner next marks
    else finished marks

unfoldable pub visit_each :
    List ServiceConfig → (ℕ → List ℕ → Visit) → List Text → List Text → List ℕ → Visit
visit_each services inner path [] marks = finished marks
visit_each services inner path (dependency ∷ dependencies) marks =
    and_then (visit_one inner path dependency (position services dependency) marks)
      (visit_each services inner path dependencies)

unfoldable pub name_of : Option ServiceConfig → Text
name_of none = []
name_of (some s) = s.name

unfoldable pub needs_of : Option ServiceConfig → List Text
needs_of none = []
needs_of (some s) = s.depends_on

-- `VisitForCycle`; each call below has one more service marked, so their number bounds the depth.
unfoldable pub visit : ℕ → List ServiceConfig → ℕ → List ℕ → List Text → Visit
visit zero services node marks path = exhausted
visit (suc fuel) services node marks path =
    let longer = path ++ name_of (get_elem? services node) ∷ [] in
    and_then
      (visit_each services (λ next m. visit fuel services next m longer) longer
        (needs_of (get_elem? services node)) (set marks node 1))
      (λ m. finished (set m node 2))

-- The loop of `FindCycle` over so many services from an index on.
unfoldable pub visit_from : List ServiceConfig → ℕ → ℕ → List ℕ → Visit
visit_from services zero i marks = finished marks
visit_from services (suc left) i marks =
    and_then
      (if get_or marks i 0 == 0
        then visit (length services) services i marks []
        else finished marks)
      (visit_from services left (suc i))

unfoldable pub find_cycle : List ServiceConfig → Visit
find_cycle services = visit_from services (length services) 0 (replicate (length services) 0)
