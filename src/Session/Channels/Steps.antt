-- ===== src/Session/Channels/Steps.antt =====
-- How the table of session/channels.h may change between two times: what becomes of each channel.
use my_test_module.Prelude.{
  ℕ, ◌≡◌, ◌≢◌, refl, sym, ap, ◌∙◌, [], ◌∷◌, none, some, All, ==_of_eq, ==_of_ne,
}
use native.Mathlib.Decide.{ℕ_discrete}
use mathlib.Core.Path.{subst}
use mathlib.Core.Option.{some-injective, none-ne-some}
use my_test_module.Session.Channels.{
  Channel, ChannelStatus, opening, opened, pending, Channels, channels_get, channels_put,
  channels_update, channels_remove,
}
use my_test_module.Session.Channels.Laws.{
  IsDistinct, IsDistinct-remove, get-put, get-put_same, get-update, get-remove_ne,
}

-- the moves of a channel that stays in the table
pub data Moves : ChannelStatus → ChannelStatus → Type 0 where
  stays : (s : ChannelStatus) → Moves s s
  opens : Moves opening opened
  pends : Moves opened pending
  resumes : Moves pending opened

abbrev pub Becomes : Channel → Channel → Type 0
Becomes old new = Moves old.status new.status × (old.kind ≡ new.kind)

-- Every channel that is in the table before and after has made one move at most, and kept its type.
abbrev pub Steps : Channels → Channels → Type 0
Steps cs cs' =
    (old new : Channel) (id : ℕ)
    → channels_get cs id ≡ some old
    → channels_get cs' id ≡ some new
    → Becomes old new

Becomes-of_eq : (old new : Channel) → old ≡ new → Becomes old new
Becomes-of_eq old new e = subst (λ c. Becomes old c) e (stays old.status, refl)

-- an entry that is the same in both
unmoved :
    (cs cs' : Channels) (old new : Channel) (id : ℕ)
    → channels_get cs' id ≡ channels_get cs id
    → channels_get cs id ≡ some old
    → channels_get cs' id ≡ some new
    → Becomes old new
unmoved cs cs' old new id same a b =
    Becomes-of_eq old new (some-injective _ _ (sym a ∙ sym same ∙ b))

pub Steps-refl : (cs : Channels) → Steps cs cs
Steps-refl cs old new id a b = unmoved cs cs old new id refl a b

-- Only the entry at an id that was free has changed.
pub Steps-of_free :
    (cs cs' : Channels) (i : ℕ)
    → channels_get cs i ≡ none
    → ((id : ℕ) → i ≢ id → channels_get cs' id ≡ channels_get cs id)
    → Steps cs cs'
Steps-of_free cs cs' i free same old new id a b = elim (ℕ_discrete i id) [
  | yes e ↦ absurd (none-ne-some old (sym (ap (channels_get cs) (sym e) ∙ free) ∙ a))
  | no ne ↦ unmoved cs cs' old new id (same id ne) a b
]

pub Steps-update :
    (cs : Channels) (ch ch' : Channel)
    → channels_get cs ch'.id ≡ some ch
    → Becomes ch ch'
    → Steps cs (channels_update cs ch')
Steps-update cs ch ch' at move old new id a b = elim (ℕ_discrete ch'.id id) [
  | yes e ↦
      let was : ch ≡ old = some-injective _ _ (sym at ∙ ap (channels_get cs) e ∙ a) in
      let is : ch' ≡ new =
        some-injective _ _ (rw (get-update cs ch' id {old = ch} at, ==_of_eq ch'.id id e) at b) in
      subst (λ c. Becomes old c) is (subst (λ c. Becomes c ch') was move)
  | no ne ↦
      unmoved cs (channels_update cs ch') old new id
        (get-update cs ch' id {old = ch} at ∙ rw (==_of_ne ch'.id id ne) refl) a b
]

pub get_of_All :
    (cs : Channels) (i : ℕ) → All (λ (c : Channel). i ≢ c.id) cs → channels_get cs i ≡ none
unfolding channels_get
get_of_All [] i all = refl
get_of_All (c ∷ cs) i (ne, all) = rw (==_of_ne c.id i (λ e. ne (sym e))) (get_of_All cs i all)

pub Steps-remove : (cs : Channels) (i : ℕ) → IsDistinct cs → Steps cs (channels_remove cs i)
Steps-remove cs i d old new id a b = elim (ℕ_discrete i id) [
  | yes e ↦
      let gone = get_of_All (channels_remove cs i) i (IsDistinct-remove cs i d).1 in
      absurd (none-ne-some new (sym (ap (channels_get (channels_remove cs i)) (sym e) ∙ gone) ∙ b))
  | no ne ↦ unmoved cs (channels_remove cs i) old new id (get-remove_ne cs i id ne) a b
]

-- a new channel, which is updated or removed at once
module _ (cs : Channels) (ch : Channel) (free : channels_get cs ch.id ≡ none) where
  get-put_ne : (id : ℕ) → ch.id ≢ id → channels_get (channels_put cs ch) id ≡ channels_get cs id
  get-put_ne id ne = get-put cs ch id ∙ rw (==_of_ne ch.id id ne) refl

  pub Steps-update-put :
      (ch' : Channel) → ch'.id ≡ ch.id → Steps cs (channels_update (channels_put cs ch) ch')
  Steps-update-put ch' e =
      let at : channels_get (channels_put cs ch) ch'.id ≡ some ch =
        ap (channels_get (channels_put cs ch)) e ∙ get-put_same cs ch in
      Steps-of_free cs (channels_update (channels_put cs ch) ch') ch.id free (λ id ne.
        get-update (channels_put cs ch) ch' id {old = ch} at
        ∙ rw (==_of_ne ch'.id id (λ s. ne (sym e ∙ s))) (get-put_ne id ne))

  pub Steps-remove-put : Steps cs (channels_remove (channels_put cs ch) ch.id)
  Steps-remove-put =
      Steps-of_free cs (channels_remove (channels_put cs ch) ch.id) ch.id free
        (λ id ne. get-remove_ne (channels_put cs ch) ch.id id ne ∙ get-put_ne id ne)
