-- ===== src/Session/Reassembly/Rounds.antt =====
-- multiplex_handler_notify_data round by round.
use my_test_module.Prelude.{
  ℕ, ◌+◌, ◌-◌, ◌<◌, ◌≤◌, ◌%◌, ◌^◌, ◌≡◌, sym, ap, ◌∙◌, List, ◌++◌, arith, lt→ltb, ltb_of_le, inl,
  inr, length, take, drop, length-append, take-append, drop-append,
}
use native.Mathlib.Decide.{dec_lt}
use my_test_module.Session.FlexBuffer.{FlexBuffer, contents, padding_len, flex_buffer_append}
use my_test_module.Session.FlexBuffer.Laws.{IsValid, length-contents, append_fits}
use my_test_module.Session.Packet.{packet_len}
use my_test_module.Session.Reassembly.{fill, Round, wait, whole, round, round_payload}
use my_test_module.Session.Reassembly.Frames.{Partial}
use my_test_module.Session.Reassembly.Fill.{room, packet_len-append, Filled, fill-Filled}

-- The incomplete buffer between two rounds.
pub record Ready (limit : ℕ) (inc : FlexBuffer) : Type 0 where
  pub valid : IsValid inc
  pub front : inc.offset ≡ padding_len
  pub roomy : limit ≤ room inc
  pub part : Partial (contents inc)

-- What one round does with `inc` and `buf`, read on the bytes of both.
abbrev pub Rounded : ℕ → FlexBuffer → FlexBuffer → Round → Type 0
Rounded limit inc buf (wait inc') =
    (contents inc' ≡ contents inc ++ contents buf) × Ready limit inc'
Rounded limit inc buf (whole inc' buf') =
    let bytes = contents inc ++ contents buf in
    (8 ≤ length bytes)
    × (packet_len bytes ≤ length bytes)
    × (contents inc' ≡ take (packet_len bytes) bytes)
    × (contents buf' ≡ drop (packet_len bytes) bytes)
    × IsValid inc'
    × IsValid buf'
    × (buf'.size < buf.size)
    × (limit ≤ inc'.capacity - padding_len)
    × (padding_len ≤ inc'.capacity)

total :
    (inc buf : FlexBuffer)
    → IsValid inc
    → IsValid buf
    → length (contents inc ++ contents buf) ≡ inc.size + buf.size
total inc buf vi vb = omega (
  arith,
  length-append (contents inc) (contents buf),
  length-contents inc vi,
  length-contents buf vb,
)

-- all that there is goes into the incomplete buffer
wait_lem :
    {limit : ℕ} (inc buf : FlexBuffer)
    → IsValid inc
    → IsValid buf
    → inc.offset ≡ padding_len
    → limit ≤ room inc
    → inc.size + buf.size ≤ limit
    → Partial (contents inc ++ contents buf)
    → Rounded limit inc buf (wait (flex_buffer_append inc buf))
wait_lem inc buf vi vb front roomy fits part =
    let (same, valid, size, offset, capacity) = append_fits inc vi buf vb (omega arith) in
    (
      same,
      record { valid = valid; front = offset ∙ front; roomy = omega arith; part = rw same part },
    )

split_at :
    (n : ℕ) (xs ys zs : List ℕ)
    → xs ++ ys ≡ zs
    → length xs ≡ n
    → (xs ≡ take n zs) × (ys ≡ drop n zs)
split_at n xs ys zs e l = rw (← e, ← l) (sym (take-append xs ys), sym (drop-append xs ys))

module _ {limit : ℕ} (inc buf : FlexBuffer) (r : Ready limit inc) (vb : IsValid buf) where
  abbrev bytes : List ℕ
  bytes = contents inc ++ contents buf

  need_lem :
      (inc1 buf1 : FlexBuffer)
      → Filled 8 inc buf (inc1, buf1)
      → packet_len (contents inc1) ≡ packet_len bytes
  need_lem inc1 buf1 f =
      sym (
        packet_len-append (contents inc1) (contents buf1)
          (omega (arith, length-contents inc1 f.inc_valid, f.enough)))
      ∙ ap packet_len f.same

  -- the incomplete buffer never holds more than the packet that it waits for
  progress :
      (inc1 buf1 : FlexBuffer)
      → Filled 8 inc buf (inc1, buf1)
      → (inc1.size ≤ packet_len bytes) × (inc.size < packet_len bytes)
  progress inc1 buf1 f = elim (dec_lt inc.size 8) [
    | yes short ↦ omega (arith, f.exact)
    | no long ↦
        let e = f.kept (omega arith) in
        omega (
          arith,
          r.part,
          length-contents inc r.valid,
          need_lem inc1 buf1 f,
          ap (λ (b : FlexBuffer). packet_len (contents b)) e,
          ap (λ (b : FlexBuffer). b.size) e,
        )
  ]

  -- the packet is whole
  whole_lem :
      (inc1 buf1 : FlexBuffer)
      → Filled 8 inc buf (inc1, buf1)
      → packet_len bytes ≤ limit
      → packet_len bytes ≤ inc.size + buf.size
      → let (inc2, buf2) = fill (packet_len (contents inc1)) inc1 buf1 in
        Rounded limit inc buf (whole inc2 buf2)
  whole_lem inc1 buf1 f bound enough =
      let need = need_lem inc1 buf1 f in
      let (before, moves) = progress inc1 buf1 f in
      let size = total inc buf r.valid vb in
      let g =
        fill-Filled (packet_len (contents inc1)) inc1 buf1 f.inc_valid f.buf_valid (omega arith)
          (omega arith) in
      let (inc2, buf2) = fill (packet_len (contents inc1)) inc1 buf1 in
      let exact : inc2.size ≡ packet_len (contents inc1) = g.exact (omega arith) in
      let (front, back) =
        split_at (packet_len bytes) (contents inc2) (contents buf2) bytes (g.same ∙ f.same)
          (omega (arith, length-contents inc2 g.inc_valid)) in
      (
        omega arith,
        omega arith,
        front,
        back,
        g.inc_valid,
        g.buf_valid,
        omega (arith, g.total, f.total),
        omega (arith, g.capacity, f.capacity, r.front, r.roomy),
        omega (arith, g.capacity, f.capacity, r.valid.inside),
      )

  -- the round once the header is complete
  payload_lem :
      (inc1 buf1 : FlexBuffer)
      → Filled 8 inc buf (inc1, buf1)
      → packet_len bytes ≤ limit
      → Rounded limit inc buf (round_payload inc1 buf1)
  unfolding round_payload
  payload_lem inc1 buf1 f bound =
      let need = need_lem inc1 buf1 f in
      let size = total inc buf r.valid vb in
      elim (dec_lt (inc.size + buf.size) (packet_len bytes)) [
        | yes short ↦
            let (same, ready) =
              wait_lem {limit = limit} inc1 buf1 f.inc_valid f.buf_valid (f.offset ∙ r.front)
                (omega arith) (omega arith)
                (rw f.same (inr (omega (arith, f.total, f.enough), omega arith))) in
            rw
              (lt→ltb ((inc1.size + buf1.size) % 2 ^ 64) (packet_len (contents inc1)) (omega arith))
              (same ∙ f.same, ready)
        | no enough ↦
            rw
              (ltb_of_le ((inc1.size + buf1.size) % 2 ^ 64) (packet_len (contents inc1))
                (omega arith))
              (whole_lem inc1 buf1 f bound (omega arith))
      ]

  pub round_lem :
      (8 ≤ length bytes → packet_len bytes ≤ limit)
      → 8 ≤ limit
      → Rounded limit inc buf (round inc buf)
  unfolding round
  round_lem bound wide = elim (dec_lt (inc.size + buf.size) 8) [
    | yes short ↦ rw (lt→ltb ((inc.size + buf.size) % 2 ^ 64) 8 (omega arith)) (
        wait_lem inc buf r.valid vb r.front r.roomy (omega arith)
          (inl (omega (arith, total inc buf r.valid vb))))
    | no long ↦ rw (ltb_of_le ((inc.size + buf.size) % 2 ^ 64) 8 (omega arith)) (
        payload_lem _ _ (fill-Filled 8 inc buf r.valid vb (omega arith) (omega arith))
          (bound (omega (arith, total inc buf r.valid vb))))
  ]
