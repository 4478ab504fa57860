-- ===== src/Session/Streams/Entries.antt =====
-- The list of streams of session/session.c: no two have one id.
use my_test_module.Prelude.{
  All-map, ℕ, ◌≡◌, ◌≢◌, refl, sym, ap, ◌∙◌, Bool-cases, List, [], ◌∷◌, ◌++◌, inl, inr, some, All,
  ◌==◌, ==_of_ne, ==_of_eq, arith, ==_iff,
}
use mathlib.Core.Option.{none-ne-some, some-injective}
use mathlib.Core.Path.{subst}
use my_test_module.Common.IdsHeap.{IdsHeap}
use my_test_module.Session.Multiplex.Validity.{Owns}
use my_test_module.Session.Streams.{Stream, get_stream, remove_entry}

-- No stream has this id.
abbrev pub Free : List Stream → ℕ → Type 0
Free ss id = All (λ (s : Stream). s.id ≢ id) ss

abbrev pub IsDistinct : List Stream → Type 0
IsDistinct [] = Unit
IsDistinct (s ∷ ss) = Free ss s.id × IsDistinct ss

pub All-snoc :
    (P : Stream → Type 0) (ss : List Stream) (s : Stream) → All P ss → P s → All P (ss ++ (s ∷ []))
All-snoc P [] s a p = (p, tt)
All-snoc P (t ∷ ss) s a p = (a.0, All-snoc P ss s a.1 p)

pub IsDistinct-snoc :
    (ss : List Stream) (s : Stream) → IsDistinct ss → Free ss s.id → IsDistinct (ss ++ (s ∷ []))
IsDistinct-snoc [] s d f = (tt, tt)
IsDistinct-snoc (t ∷ ss) s d f =
    (All-snoc (λ u. u.id ≢ t.id) ss s d.0 (λ e. f.0 (sym e)), IsDistinct-snoc ss s d.1 f.1)

pub All-remove_entry :
    (P : Stream → Type 0) (ss : List Stream) (id : ℕ) → All P ss → All P (remove_entry ss id)
unfolding remove_entry
All-remove_entry P [] id a = tt
All-remove_entry P (s ∷ ss) id a = elim (Bool-cases (s.id == id)) [
  | inl e ↦ rw e a.1
  | inr e ↦ rw e (a.0, All-remove_entry P ss id a.1)
]

pub IsDistinct-remove_entry :
    (ss : List Stream) (id : ℕ)
    → IsDistinct ss
    → IsDistinct (remove_entry ss id) × Free (remove_entry ss id) id
unfolding remove_entry
IsDistinct-remove_entry [] id d = (tt, tt)
IsDistinct-remove_entry (s ∷ ss) id d =
    let rest = IsDistinct-remove_entry ss id d.1 in
    elim (Bool-cases (s.id == id)) [
      | inl e ↦
          let same : s.id ≡ id = (==_iff s.id id).0 e in
          rw e
            (d.1, All-map (λ t. t.id ≢ s.id) (λ t. t.id ≢ id) ss (λ t ne q. ne (q ∙ sym same)) d.0)
      | inr e ↦
          let other : s.id ≢ id = ground (arith, e) in
          rw e ((All-remove_entry (λ t. t.id ≢ s.id) ss id d.0, rest.0), (other, rest.1))
    ]

pub remove_entry-snoc :
    (ss : List Stream) (s : Stream) → Free ss s.id → remove_entry (ss ++ (s ∷ [])) s.id ≡ ss
unfolding remove_entry
remove_entry-snoc [] s f = rw (==_of_eq s.id s.id refl) refl
remove_entry-snoc (t ∷ ss) s f =
    rw (==_of_ne t.id s.id f.0) (ap (λ l. t ∷ l) (remove_entry-snoc ss s f.1))

pub get_stream-snoc :
    (ss : List Stream) (s : Stream) → Free ss s.id → get_stream (ss ++ (s ∷ [])) s.id ≡ some s
unfolding get_stream
get_stream-snoc [] s f = rw (==_of_eq s.id s.id refl) refl
get_stream-snoc (t ∷ ss) s f = rw (==_of_ne t.id s.id f.0) (get_stream-snoc ss s f.1)

pub get_stream-Owns :
    (ids : IdsHeap) (ss : List Stream) (id : ℕ) {s : Stream}
    → All (λ (t : Stream). Owns ids t.id) ss
    → get_stream ss id ≡ some s
    → Owns ids s.id
unfolding get_stream
get_stream-Owns ids [] id a e = absurd (none-ne-some _ e)
get_stream-Owns ids (t ∷ ss) id a e = elim (Bool-cases (t.id == id)) [
  | inl q ↦
      let same : some t ≡ some _ = rw q at e in
      subst (λ (x : Stream). Owns ids x.id) (some-injective _ _ same) a.0
  | inr q ↦ get_stream-Owns ids ss id a.1 (rw q at e)
]
