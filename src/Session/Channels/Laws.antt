-- ===== src/Session/Channels/Laws.antt =====
-- Laws of the table of session/channels.h.
use my_test_module.Prelude.{
  ℕ, ◌≡◌, ◌≢◌, refl, sym, ap, ◌∙◌, List, [], ◌∷◌, some, arith, All, All-map, ◌==◌, if◌then◌else◌,
  ==_of_eq, ==_of_ne, Bool-cases, inl, inr,
}
use mathlib.Core.Path.{subst}
use mathlib.Core.Option.{some-injective}
use native.Mathlib.Decide.{ℕ_discrete}
use my_test_module.Session.Channels.{
  Channel, Channels, channels_put, channels_get, channels_remove, channels_update,
}

-- No two channels of the table have one id.
abbrev pub IsDistinct : Channels → Type 0
IsDistinct [] = Unit
IsDistinct (c ∷ cs) = All (λ (d : Channel). c.id ≢ d.id) cs × IsDistinct cs

-- Each channel of the table satisfies `P`.
module _ (P : Channel → Type 0) where
  pub All-put : (cs : Channels) (ch : Channel) → All P cs → P ch → All P (channels_put cs ch)
  unfolding channels_put
  All-put [] ch a p = (p, tt)
  All-put (c ∷ cs) ch a p = elim (Bool-cases (c.id == ch.id)) [
    | inl e ↦ rw e (p, a.1)
    | inr e ↦ rw e (a.0, All-put cs ch a.1 p)
  ]

  pub All-update : (cs : Channels) (ch : Channel) → All P cs → P ch → All P (channels_update cs ch)
  unfolding channels_update
  All-update [] ch a p = tt
  All-update (c ∷ cs) ch a p = elim (Bool-cases (c.id == ch.id)) [
    | inl e ↦ rw e (p, a.1)
    | inr e ↦ rw e (a.0, All-update cs ch a.1 p)
  ]

  pub All-remove : (cs : Channels) (id : ℕ) → All P cs → All P (channels_remove cs id)
  unfolding channels_remove
  All-remove [] id a = tt
  All-remove (c ∷ cs) id a = elim (Bool-cases (c.id == id)) [
    | inl e ↦ rw e a.1
    | inr e ↦ rw e (a.0, All-remove cs id a.1)
  ]

  pub P_of_get :
      (cs : Channels) (id : ℕ) {ch : Channel} → All P cs → channels_get cs id ≡ some ch → P ch
  unfolding channels_get
  P_of_get [] id a e = cc
  P_of_get (c ∷ cs) id {ch} a e = elim (Bool-cases (c.id == id)) [
    | inl hit ↦
        subst P
          (some-injective _ _ (sym (ap (λ b. if b then some c else channels_get cs id) hit) ∙ e))
          a.0
    | inr miss ↦
        P_of_get cs id a.1 (sym (ap (λ b. if b then some c else channels_get cs id) miss) ∙ e)
  ]

pub All-zip {ℓ κ μ ν} :
    {A : Type ℓ} (P : A → Type κ) (Q : A → Type μ) (R : A → Type ν) (xs : List A)
    → ((x : A) → P x → Q x → R x)
    → All P xs
    → All Q xs
    → All R xs
All-zip P Q R [] f a b = tt
All-zip P Q R (x ∷ xs) f a b = (f x a.0 b.0, All-zip P Q R xs f a.1 b.1)

pub id-get : (cs : Channels) (id : ℕ) {ch : Channel} → channels_get cs id ≡ some ch → ch.id ≡ id
unfolding channels_get
id-get [] id e = cc
id-get (c ∷ cs) id {ch} e = ground (arith, id-get cs id {ch = ch})

pub IsDistinct-put :
    (cs : Channels) (ch : Channel) → IsDistinct cs → IsDistinct (channels_put cs ch)
unfolding channels_put
IsDistinct-put [] ch d = (tt, tt)
IsDistinct-put (c ∷ cs) ch d = elim (ℕ_discrete c.id ch.id) [
  | yes e ↦ rw (==_of_eq c.id ch.id e) (
    All-map (λ (x : Channel). c.id ≢ x.id) (λ (x : Channel). ch.id ≢ x.id) cs (λ x ne. omega arith)
        d.0,
    d.1,
  )
  | no ne ↦
      rw (==_of_ne c.id ch.id ne)
        (All-put (λ (x : Channel). c.id ≢ x.id) cs ch d.0 ne, IsDistinct-put cs ch d.1)
]

pub IsDistinct-update :
    (cs : Channels) (ch : Channel) → IsDistinct cs → IsDistinct (channels_update cs ch)
unfolding channels_update
IsDistinct-update [] ch d = tt
IsDistinct-update (c ∷ cs) ch d = elim (ℕ_discrete c.id ch.id) [
  | yes e ↦ rw (==_of_eq c.id ch.id e) (
    All-map (λ (x : Channel). c.id ≢ x.id) (λ (x : Channel). ch.id ≢ x.id) cs (λ x ne. omega arith)
        d.0,
    d.1,
  )
  | no ne ↦
      rw (==_of_ne c.id ch.id ne)
        (All-update (λ (x : Channel). c.id ≢ x.id) cs ch d.0 ne, IsDistinct-update cs ch d.1)
]

-- A removal takes away the id, and no other.
pub IsDistinct-remove :
    (cs : Channels) (id : ℕ)
    → IsDistinct cs
    → IsDistinct (channels_remove cs id) × All (λ (x : Channel). id ≢ x.id) (channels_remove cs id)
unfolding channels_remove
IsDistinct-remove [] id d = (tt, tt)
IsDistinct-remove (c ∷ cs) id d = elim (ℕ_discrete c.id id) [
  | yes e ↦ rw (==_of_eq c.id id e) (
    d.1,
    All-map (λ (x : Channel). c.id ≢ x.id) (λ (x : Channel). id ≢ x.id) cs (λ x ne. omega arith)
        d.0,
  )
  | no ne ↦
      let (distinct, other) = IsDistinct-remove cs id d.1 in
      rw (==_of_ne c.id id ne)
        ((All-remove (λ (x : Channel). c.id ≢ x.id) cs id d.0, distinct), (λ e. ne (sym e), other))
]

pub get-put :
    (cs : Channels) (ch : Channel) (id : ℕ)
    → channels_get (channels_put cs ch) id ≡ (if ch.id == id then some ch else channels_get cs id)
unfolding channels_get channels_put
get-put [] ch id = refl
get-put (c ∷ cs) ch id = ground (arith, get-put cs ch id)

pub get-remove_ne :
    (cs : Channels) (i id : ℕ)
    → i ≢ id
    → channels_get (channels_remove cs i) id ≡ channels_get cs id
unfolding channels_get channels_remove
get-remove_ne [] i id ne = refl
get-remove_ne (c ∷ cs) i id ne = ground (arith, get-remove_ne cs i id ne)

-- An update of a channel of the table is seen at its id alone.
pub get-update :
    (cs : Channels) (ch : Channel) (id : ℕ) {old : Channel}
    → channels_get cs ch.id ≡ some old
    → channels_get (channels_update cs ch) id
      ≡ (if ch.id == id then some ch else channels_get cs id)
unfolding channels_get channels_update
get-update [] ch id e = cc
get-update (c ∷ cs) ch id {old} e = ground (arith, get-update cs ch id {old = old})

-- what was put, or updated, is what the table holds under its id
pub get-put_same :
    (cs : Channels) (ch : Channel) → channels_get (channels_put cs ch) ch.id ≡ some ch
get-put_same cs ch = rw (get-put cs ch ch.id, ==_of_eq ch.id ch.id refl)

pub get-update_same :
    (cs : Channels) (ch : Channel) {old : Channel}
    → channels_get cs ch.id ≡ some old
    → channels_get (channels_update cs ch) ch.id ≡ some ch
get-update_same cs ch {old} e = rw (get-update cs ch ch.id {old = old} e, ==_of_eq ch.id ch.id refl)

pub remove_head : (ch : Channel) (cs : Channels) → channels_remove (ch ∷ cs) ch.id ≡ cs
unfolding channels_remove
remove_head ch cs = rw (==_of_eq ch.id ch.id refl)
