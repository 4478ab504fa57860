-- ===== src/Tests/Lists.antt =====
-- common/linkedlist.c on a list of three entries: the addresses are 1, 2 and 3, the head's is 10, and
-- the data of an entry is at its address and 100.
use my_test_module.Prelude.{
  ◌+◌, ◌≡◌, ◌≢◌, refl, false, none, some, List, [], ◌∷◌, arith, inr, ◌==◌, pos, negsuc,
}
use my_test_module.Common.RcMem.{RcMem}
use my_test_module.Common.LinkedList.{
  ListIterator, LinkedList, list_create, list_insert, list_iterate, list_iterator_next,
  list_iterator_remove, again, follow, insert_behind,
}
use my_test_module.Common.LinkedList.Laws.{IsList, insert_behind-IsList}
use my_test_module.Common.LinkedList.Sequence.{
  insert, remove, remove_entry, get, find, size, clear, perform, Operation, matches_of,
}
use my_test_module.Common.LinkedList.Sequence.Runs.{run, run-refines, AreAllowed}
use my_test_module.Common.LinkedList.Iterator.Loops.{sweep, sweep_lem}
use my_test_module.Common.LinkedList.Iterator.Stale.{perform-stale}

abbrev pub no_memory : RcMem
no_memory = record { count = λ p. 1; destructor = λ p. false; destroyed = []; freed = [] }

abbrev entries : LinkedList
entries = record {
  head = 0;
  size = 0;
  mod_count = 0;
  compare = none;
  next = λ p. 0;
  prev = λ p. 0;
  data_of = λ p. p + 100;
  memory = no_memory;
  errno = 0;
}

abbrev empty_list : LinkedList
empty_list = list_create entries 10 none

empty_list-IsList : IsList empty_list []
unfolding list_create
empty_list-IsList = (refl, (omega arith, ((refl, (refl, (tt, tt))), ((λ e. omega arith), tt))))

abbrev calls : List Operation
calls =
    insert (pos 0) 1
    ∷ insert (negsuc 0) 2
    ∷ insert (pos 1) 3
    ∷ find 2
    ∷ get (negsuc 1)
    ∷ remove (pos 7)
    ∷ remove (pos 0)
    ∷ remove_entry 2
    ∷ size
    ∷ clear
    ∷ []

calls_allowed : AreAllowed empty_list.head empty_list.data_of (matches_of empty_list) calls []
unfolding list_create
calls_allowed = (
  ((λ e. omega arith), (((λ e. omega arith), tt), omega arith)),
  (
    ((λ e. omega arith), (((λ e. omega arith), ((λ e. omega arith), tt)), omega arith)),
    (
      (
        (λ e. omega arith),
        (((λ e. omega arith), ((λ e. omega arith), ((λ e. omega arith), tt))), omega arith),
      ),
      (tt, (tt, (tt, (tt, (inr ((3 ∷ []), ([], refl)), (tt, (tt, tt))))))),
    ),
  ),
)

-- 101, 103 and 102 are in the list: the second from the end is 103.
run-refines_example :
    (l : LinkedList) × ((run calls empty_list
        ≡ some (
          pos 1 ∷ pos 1 ∷ pos 1 ∷ pos 2 ∷ pos 103 ∷ pos 0 ∷ pos 101 ∷ pos 102 ∷ pos 1 ∷ pos 0 ∷ [],
          l,
        ))
      × IsList l [])
unfolding list_create
run-refines_example = run-refines calls empty_list [] empty_list-IsList calls_allowed

abbrev two_entries : LinkedList
two_entries = insert_behind (insert_behind empty_list 10 1) 1 2

two_entries-IsList : IsList two_entries (1 ∷ 2 ∷ [])
unfolding insert_behind list_create
two_entries-IsList =
    insert_behind-IsList (insert_behind empty_list 10 1) (1 ∷ []) [] 2
      (insert_behind-IsList empty_list [] [] 1 empty_list-IsList (omega arith) (λ e. omega arith)
        (λ e. omega arith) ((λ e. omega arith), tt))
      (omega arith) (λ e. omega arith) (λ e. omega arith)
      ((λ e. omega arith), ((λ e. omega arith), tt))

-- Both data are visited, and the first is dropped.
sweep_lem_example :
    (l : LinkedList) × ((sweep (λ d. d == 101) 3 two_entries (list_iterate two_entries)
        ≡ some (101 ∷ 102 ∷ [], (pos 0, l)))
      × IsList l (2 ∷ []))
unfolding insert_behind list_create
sweep_lem_example =
    sweep_lem (λ d. d == 101) 3 two_entries (1 ∷ 2 ∷ []) two_entries-IsList (omega arith)

abbrev one_entry : LinkedList
one_entry = insert_behind empty_list 10 1

-- the iterator behind its first step, at the entry 1 and before the head
abbrev stepped : ListIterator
stepped = record { current = 1; next = 10; expected_mod_count = 1 }

stepped_lem : (list_iterator_next one_entry (list_iterate one_entry)).1.1.0 ≡ stepped
unfolding list_iterator_next list_iterate insert_behind list_create
stepped_lem = refl

inserted : perform one_entry (insert (pos 1) 2) ≡ some (pos 1, two_entries)
unfolding perform list_insert insert_behind list_create follow
inserted = refl

perform-stale_example :
    (list_iterator_next two_entries stepped
      ≡ (negsuc 0, (none, (stepped, record two_entries { errno = again }))))
    × (stepped.current ≢ 0
        → list_iterator_remove two_entries stepped
          ≡ (negsuc 0, (stepped, record two_entries { errno = again })))
unfolding insert_behind list_create
perform-stale_example =
    perform-stale one_entry (insert (pos 1) 2) (pos 1) two_entries stepped inserted refl
      (omega arith) refl (λ e. omega arith)
