-- ===== src/Common/LinkedList/Sequence/Runs.antt =====
-- Runs of calls of common/linkedlist.c.
use my_test_module.Prelude.{ℕ, ◌≡◌, refl, Bool, Option, none, some, List, [], ◌∷◌, ℤ}
use mathlib.Core.Path.{subst}
use my_test_module.Common.LinkedList.{LinkedList, is_match}
use my_test_module.Common.LinkedList.Laws.{IsList}
use my_test_module.Common.LinkedList.Sequence.{Operation, perform, answer, IsAllowed, matches_of}
use my_test_module.Common.LinkedList.Sequence.Calls.{perform-answer}

-- a run of calls, and what it answers
abbrev pub and_answer : ℤ → Option (List ℤ × LinkedList) → Option (List ℤ × LinkedList)
and_answer a none = none
and_answer a (some (rest, l)) = some (a ∷ rest, l)

abbrev pub run_then :
    (LinkedList → Option (List ℤ × LinkedList))
    → Option (ℤ × LinkedList)
    → Option (List ℤ × LinkedList)
run_then k none = none
run_then k (some (a, l)) = and_answer a (k l)

abbrev pub run : List Operation → LinkedList → Option (List ℤ × LinkedList)
run [] l = some ([], l)
run (op ∷ ops) l = run_then (run ops) (perform l op)

abbrev pub run_sequence : (ℕ → ℕ) → (ℕ → ℕ → Bool) → List Operation → List ℕ → List ℤ × List ℕ
run_sequence d m [] xs = ([], xs)
run_sequence d m (op ∷ ops) xs =
    let rest = run_sequence d m ops (answer d m xs op).1 in ((answer d m xs op).0 ∷ rest.0, rest.1)

-- Each call of the run is allowed when it is made.
abbrev pub AreAllowed : ℕ → (ℕ → ℕ) → (ℕ → ℕ → Bool) → List Operation → List ℕ → Type 0
AreAllowed h d m [] xs = Unit
AreAllowed h d m (op ∷ ops) xs = IsAllowed h d xs op × AreAllowed h d m ops (answer d m xs op).1

-- What the calls of a run leave alone
abbrev Fixed : Type 0
Fixed = ℕ × ((ℕ → ℕ) × Option (ℕ → ℕ → ℤ))

abbrev fixed : LinkedList → Fixed
fixed l = (l.head, (l.data_of, l.compare))

abbrev Refines : List Operation → LinkedList → List ℕ → Fixed → Type 0
Refines ops l xs (h, (d, c)) =
    AreAllowed h d (is_match d c) ops xs
    → (l' : LinkedList) × ((run ops l ≡ some ((run_sequence d (is_match d c) ops xs).0, l'))
        × IsList l' (run_sequence d (is_match d c) ops xs).1)

-- A linked list whose ring holds a sequence of entries answers every run of calls of insert,
-- remove, remove_entry, get, find, size and clear, with indices from either end and in or out of
-- range, as the sequence does, every call ends, and the list then holds what the run leaves of the
-- sequence; an entry that is put in must be new and have its data, and there must be room, and one
-- that is taken out by its address must be in the list.
pub run-refines :
    (ops : List Operation) (l : LinkedList) (xs : List ℕ)
    → IsList l xs
    → AreAllowed l.head l.data_of (matches_of l) ops xs
    → (l' : LinkedList) × ((run ops l ≡ some ((run_sequence l.data_of (matches_of l) ops xs).0, l'))
        × IsList l' (run_sequence l.data_of (matches_of l) ops xs).1)
run-refines [] l xs v ok = (l, (refl, v))
run-refines (op ∷ ops) l xs v (allowed, later) =
    let (l1, (does, (holds, (head, (datum, compare))))) = perform-answer l xs op v allowed in
    let same : fixed l1 ≡ fixed l = cc (head, datum, compare) in
    let xs1 = (answer l.data_of (matches_of l) xs op).1 in
    let (l2, (rest, end)) = subst (Refines ops l1 xs1) same (run-refines ops l1 xs1 holds) later in
    (l2, (rw (does, rest) refl, end))
