-- ===== src/Session/Reassembly/Fill.antt =====
-- How bytes move into the incomplete buffer in multiplex_handler_notify_data.
use my_test_module.Prelude.{
  ℕ, zero, suc, ◌+◌, ◌-◌, ◌<◌, ◌≤◌, ◌≡◌, refl, ap, ◌∙◌, List, [], ◌∷◌, ◌++◌, arith, lt→ltb,
  ltb_of_le, length, get_or, take, drop, take-append-drop,
}
use mathlib.Core.List.{append_assoc}
use native.Mathlib.Decide.{dec_lt}
use my_test_module.Session.FlexBuffer.{
  FlexBuffer, contents, flex_buffer_append2, flex_buffer_forward_offset,
}
use my_test_module.Session.FlexBuffer.Laws.{IsValid, append2_fits, forward_lem}
use my_test_module.Session.Packet.{packet_len}
use my_test_module.Session.Reassembly.{fill}

-- The room of the incomplete buffer behind its offset.
abbrev pub room : FlexBuffer → ℕ
room b = b.capacity - b.offset

pub get_or-append :
    (xs ys : List ℕ) (i d : ℕ) → i < length xs → get_or (xs ++ ys) i d ≡ get_or xs i d
get_or-append [] ys i d h = absurd (omega arith)
get_or-append (x ∷ xs) ys zero d h = refl
get_or-append (x ∷ xs) ys (suc i) d h = get_or-append xs ys i d (omega arith)

pub packet_len-append : (xs ys : List ℕ) → 8 ≤ length xs → packet_len (xs ++ ys) ≡ packet_len xs
packet_len-append xs ys h = omega (arith, get_or-append xs ys 6 0, get_or-append xs ys 7 0)

-- What `fill` leaves of `inc` and `buf`: the same bytes, divided elsewhere.
pub record Filled (need : ℕ) (inc buf : FlexBuffer) (r : FlexBuffer × FlexBuffer) : Type 0 where
  pub same : contents r.0 ++ contents r.1 ≡ contents inc ++ contents buf
  pub inc_valid : IsValid r.0
  pub buf_valid : IsValid r.1
  pub total : r.0.size + r.1.size ≡ inc.size + buf.size
  pub enough : need ≤ r.0.size
  pub exact : inc.size ≤ need → r.0.size ≡ need
  pub kept : need ≤ inc.size → r.0 ≡ inc
  pub offset : r.0.offset ≡ inc.offset
  pub capacity : r.0.capacity ≡ inc.capacity

fill_more :
    (need : ℕ) (inc buf : FlexBuffer)
    → IsValid inc
    → IsValid buf
    → inc.size < need
    → need ≤ inc.size + buf.size
    → need ≤ room inc
    → Filled need inc buf (
      flex_buffer_append2 inc buf (need - inc.size),
      (flex_buffer_forward_offset buf (need - inc.size)).0,
    )
fill_more need inc buf vi vb more have fits =
    let n = need - inc.size in
    let (added, valid, size, offset, capacity) =
      append2_fits inc vi buf n vb (omega arith) (omega arith) in
    let (moved, dropped, left, left_valid) = forward_lem buf vb n (omega arith) in
    record {
      same =
          rw (added, dropped)
            (append_assoc (contents inc) (take n (contents buf)) (drop n (contents buf))
              ∙ ap (λ t. contents inc ++ t) (take-append-drop n (contents buf)));
      inc_valid = valid;
      buf_valid = left_valid;
      total = omega arith;
      enough = omega arith;
      exact = λ h. omega arith;
      kept = λ h. absurd (omega arith);
      offset = offset;
      capacity = capacity;
    }

pub fill-Filled :
    (need : ℕ) (inc buf : FlexBuffer)
    → IsValid inc
    → IsValid buf
    → need ≤ inc.size + buf.size
    → need ≤ room inc
    → Filled need inc buf (fill need inc buf)
unfolding fill
fill-Filled need inc buf vi vb have fits = elim (dec_lt inc.size need) [
  | yes more ↦ rw (lt→ltb _ _ more) (fill_more need inc buf vi vb more have fits)
  | no full ↦ rw (ltb_of_le inc.size need (omega arith)) (record {
    same = refl;
    inc_valid = vi;
    buf_valid = vb;
    total = refl;
    enough = omega arith;
    exact = λ h. omega arith;
    kept = λ h. refl;
    offset = refl;
    capacity = refl;
  })
]
