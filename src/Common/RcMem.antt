-- ===== src/Common/RcMem.antt =====
-- common/rc_mem.c: memory that is freed when its last reference is given up.
use my_test_module.Prelude.{
  ℕ, ◌+◌, ◌-◌, ◌%◌, ◌^◌, Bool, List, ◌∷◌, Option, none, some, ltb, ◌==◌, if◌then◌else◌,
}
use my_test_module.Common.Ring.{update}

-- `count` is `nrefs` and `destructor` the handler that rc_alloc is given, by the address of the
-- object. A destructor is code of the client: it is taken to leave the count of its own object, and
-- to act on other things only, and the objects for which it ran are listed.
pub record RcMem : Type 0 where
  pub count : ℕ → ℕ
  pub destructor : ℕ → Bool
  pub destroyed : List ℕ
  pub freed : List ℕ

-- `rc_alloc(size, destructor)`: malloc gives the address, or none.
unfoldable pub rc_alloc : RcMem → Option ℕ → Bool → Option ℕ × RcMem
rc_alloc m none destructor = (none, m)
rc_alloc m (some p) destructor =
    (some p, record m { count = update m.count p 1; destructor = update m.destructor p destructor })

unfoldable pub ref : RcMem → ℕ → RcMem
ref m obj =
    if obj == 0 then m else record m { count = update m.count obj ((m.count obj + 1) % 2 ^ 32) }

-- the destructor of the object, if it has one
abbrev pub destroy : RcMem → ℕ → RcMem
destroy m obj = if m.destructor obj then record m { destroyed = obj ∷ m.destroyed } else m

-- `nrefs` is unsigned: below zero it wraps.
unfoldable pub deref : RcMem → ℕ → RcMem
deref m obj =
    if obj == 0
    then m
    else let less = record m {
      count = update m.count obj ((m.count obj + (2 ^ 32 - 1)) % 2 ^ 32);
    } in
      if ltb 0 (less.count obj)
      then less
      else let done = destroy less obj in
        if ltb 0 (done.count obj) then done else record done { freed = obj ∷ done.freed }

unfoldable pub nrefs : RcMem → ℕ → ℕ
nrefs m obj = if obj == 0 then 0 else m.count obj
