-- ===== src/Session/Reassembly/Chunks.antt =====
-- The whole byte stream of a reliable transport, whatever pieces it arrives in.
use my_test_module.Prelude.{
  ℕ, zero, suc, ◌≤◌, ◌≡◌, refl, sym, ap, ◌∙◌, List, [], ◌∷◌, ◌++◌, arith, inl, All, length,
  length-append, take_all, drop_all,
}
use mathlib.Core.List.{foldl, append-nil, append_assoc, foldl-append}
use mathlib.Core.Path.{subst}
use my_test_module.Session.FlexBuffer.{FlexBuffer, contents}
use my_test_module.Session.FlexBuffer.Laws.{IsValid}
use my_test_module.Session.Packet.{packet_len}
use my_test_module.Session.Reassembly.{notify_data}
use my_test_module.Session.Reassembly.Fill.{packet_len-append}
use my_test_module.Session.Reassembly.Frames.{Frames, deframe, Bounded, deframe-Partial}
use my_test_module.Session.Reassembly.Rounds.{Ready}
use my_test_module.Session.Reassembly.Join.{
  Bounded-fuel, deframe-append, length-rest, Bounded-prefix, Bounded-rest, drop_packet,
  deframe_packet,
}
use my_test_module.Session.Reassembly.Stream.{Delivered, notify_data_lem}

-- the bytes of all pieces
abbrev pub all_bytes : List FlexBuffer → List ℕ
all_bytes [] = []
all_bytes (c ∷ cs) = contents c ++ all_bytes cs

-- the bytes of all packets
abbrev pub stream_of : List (List ℕ) → List ℕ
stream_of [] = []
stream_of (p ∷ ps) = p ++ stream_of ps

-- A packet as long as its header says, and no longer than `limit`.
pub record IsPacket (limit : ℕ) (p : List ℕ) : Type 0 where
  pub headed : 8 ≤ length p
  pub exact : packet_len p ≡ length p
  pub bounded : length p ≤ limit

stream_of-frames :
    (limit g : ℕ) (ps : List (List ℕ))
    → All (IsPacket limit) ps
    → length (stream_of ps) ≤ g
    → (deframe g (stream_of ps) ≡ (ps, [])) × Bounded limit g (stream_of ps)
stream_of-frames limit g [] a h =
    (deframe-Partial g [] (inl (omega arith)), Bounded-fuel limit 0 g [] (omega arith) tt)
stream_of-frames limit zero (p ∷ ps) (k, a) h =
    absurd (omega (arith, length-append p (stream_of ps), k.headed))
stream_of-frames limit (suc g) (p ∷ ps) (k, a) h =
    let tail = stream_of ps in
    let n = length-append p tail in
    let (frames, bounded) = stream_of-frames limit g ps a (omega (arith, k.headed)) in
    let nothing = drop_all (packet_len p) p (omega (arith, k.exact)) in
    let all = take_all (packet_len p) p (omega (arith, k.exact)) in
    let enough : packet_len p ≤ length p = omega (arith, k.exact) in
    (
      deframe_packet p tail k.headed enough g ∙ rw (nothing, all, frames),
      (
        λ long. omega (arith, packet_len-append p tail k.headed, k.exact, k.bounded),
        λ long le.
            subst (Bounded limit g)
              (sym (drop_packet p tail k.headed enough ∙ ap (λ t. t ++ tail) nothing)) bounded,
      ),
    )

module _ {H : Type 0} (deliver : H → List ℕ → H) where
  -- one call of on_data for each piece
  unfoldable pub feed : H → FlexBuffer → List FlexBuffer → H × FlexBuffer
  feed h inc [] = (h, inc)
  feed h inc (c ∷ cs) = let (h', inc') = notify_data deliver h inc c in feed h' inc' cs

  module _ (limit : ℕ) (wide : 8 ≤ limit) where
    feed_lem :
        (h : H) (inc : FlexBuffer) (cs : List FlexBuffer) (g : ℕ)
        → Ready limit inc
        → All IsValid cs
        → length (contents inc ++ all_bytes cs) ≤ g
        → Bounded limit g (contents inc ++ all_bytes cs)
        → Delivered deliver limit h (deframe g (contents inc ++ all_bytes cs)) (feed h inc cs)
    unfolding feed
    feed_lem h inc [] g r v size b =
        rw (append-nil (contents inc), deframe-Partial g (contents inc) r.part) (refl, refl, r)
    feed_lem h inc (c ∷ cs) g r v size b =
        let piece = contents inc ++ contents c in
        let e : contents inc ++ (contents c ++ all_bytes cs) ≡ piece ++ all_bytes cs =
          sym (append_assoc (contents inc) (contents c) (all_bytes cs)) in
        let size' : length (piece ++ all_bytes cs) ≤ g = rw e at size in
        let b' : Bounded limit g (piece ++ all_bytes cs) = subst (Bounded limit g) e b in
        let (state, left, ready) =
          notify_data_lem deliver limit wide h inc c g r v.0
            (omega (arith, length-append piece (all_bytes cs)))
            (Bounded-prefix limit g piece (all_bytes cs) b') in
        let (h', inc') = notify_data deliver h inc c in
        let (packets, rest) = deframe g piece in
        let more : contents inc' ++ all_bytes cs ≡ rest ++ all_bytes cs =
          ap (λ t. t ++ all_bytes cs) left in
        let (state', left', ready') =
          feed_lem h' inc' cs g ready v.1
            (omega (
              arith,
              ap length more,
              length-append rest (all_bytes cs),
              length-append piece (all_bytes cs),
              length-rest g piece,
            ))
            (subst (Bounded limit g) (sym more)
              (Bounded-rest limit g piece (all_bytes cs) size' b')) in
        rw (e, deframe-append g piece (all_bytes cs) size')
          (
            state'
                ∙ ap (λ t. foldl deliver h' (deframe g t).0) more
                ∙ ap (λ t. foldl deliver t (deframe g (rest ++ all_bytes cs)).0) state
                ∙ sym (foldl-append deliver h packets (deframe g (rest ++ all_bytes cs)).0),
            left' ∙ ap (λ t. (deframe g t).1) more,
            ready',
          )

    -- A byte stream that is the concatenation of packets, each as long as its header says and no
    -- longer than the room of the incomplete buffer, is handed on as exactly those packets, in
    -- order, in whatever valid pieces it arrives and whatever a delivery does; nothing is left in
    -- the incomplete buffer, which is ready for the next piece.
    pub reassembly :
        (h : H) (inc : FlexBuffer) (cs : List FlexBuffer) (packets : List (List ℕ))
        → Ready limit inc
        → contents inc ≡ []
        → All IsValid cs
        → All (IsPacket limit) packets
        → all_bytes cs ≡ stream_of packets
        → let (h', inc') = feed h inc cs in
          (h' ≡ foldl deliver h packets) × (contents inc' ≡ []) × Ready limit inc'
    reassembly h inc cs packets r blank v k e =
        let bytes : contents inc ++ all_bytes cs ≡ stream_of packets =
          ap (λ t. t ++ all_bytes cs) blank ∙ e in
        let g = length (stream_of packets) in
        let (frames, bounded) = stream_of-frames limit g packets k (omega arith) in
        let (state, left, ready) =
          feed_lem h inc cs g r v (omega (arith, ap length bytes))
            (subst (Bounded limit g) (sym bytes) bounded) in
        let all : deframe g (contents inc ++ all_bytes cs) ≡ (packets, []) =
          ap (deframe g) bytes ∙ frames in
        (
          state ∙ ap (λ (f : Frames). foldl deliver h f.0) all,
          left ∙ ap (λ (f : Frames). f.1) all,
          ready,
        )
