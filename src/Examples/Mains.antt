-- ===== src/Examples/Mains.antt =====
-- The loops of the example programs on a few keys.
use Prim.Native.Nat.{◌*◌}
use fractaltree.Prelude.{ℕ, ◌≡◌, refl, true, none, some, List, [], ◌∷◌, if◌then◌else◌, ltb, ◌==◌}
use fractaltree.Order.{nat_ord}
use fractaltree.Node.Entries.{lookup, IsSorted}
use fractaltree.Tree.{new, get}
use fractaltree.Client.{run}
use fractaltree.Sequence.Laws.{Lists}
use fractaltree.Programs.Concurrent.{goroutines, interleave}
use fractaltree.Programs.Concurrent.Laws.{AllDone, get-interleave}
use fractaltree.Programs.Eviction.{evict}
use fractaltree.Programs.Eviction.Laws.{Evicts, evict_lem}
use fractaltree.Programs.Requests.{count_requests, check_rates}
use fractaltree.Programs.Requests.Laws.{requests_of, rated, check_rates-count_requests}
use fractaltree.Examples.Data.{nat_zero, small, grown, grown-IsValid}

-- two writers and a reader, two rounds each
abbrev turns : List ℕ
turns = 0 ∷ 2 ∷ 1 ∷ 1 ∷ 0 ∷ 2 ∷ []

all_turns_taken : AllDone (interleave turns (goroutines 2 1 2)).1
all_turns_taken = (refl, (refl, (refl, tt)))

get-interleave_example :
    get (run (interleave turns (goroutines 2 1 2)).0 (new small)).0 3
    ≡ (if ltb 3 (2 * 2) then some 3 else none)
get-interleave_example = get-interleave small 2 1 2 turns all_turns_taken 3

abbrev keys : List ℕ
keys = 4 ∷ 1 ∷ 7 ∷ 1 ∷ 3 ∷ []

evict_lem_example :
    (ps : List (ℕ × ℕ)) × Lists grown (λ j. true) ps × Evicts grown 12 120 ps (evict grown 12 120)
evict_lem_example = evict_lem grown 12 120 grown-IsValid

check_rates-count_requests_example :
    (ps : List (ℕ × ℕ)) × IsSorted ps
    × ((k : ℕ)
        → lookup ps k ≡ (if requests_of k keys == 0 then none else some (requests_of k keys)))
    × (check_rates 1 (count_requests (new small) keys) ≡ rated 1 ps)
check_rates-count_requests_example = check_rates-count_requests small 1 keys
