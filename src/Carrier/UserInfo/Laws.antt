-- ===== src/Carrier/UserInfo/Laws.antt =====
-- The information that a carrier sets is what its friends have of it.
use my_test_module.Prelude.{
  ℕ, ◌≡◌, ◌≢◌, refl, sym, ap, ◌∙◌, Bool, true, false, not, Bool-cases, inl, inr, List, some, length,
  ==_of_ne, if◌then◌else◌,
}
use my_test_module.Prelude.Returns.{value}
use my_test_module.Carrier.Friends.Tables.{
  get, put, same_bytes, same_bytes-eq, same_bytes_refl, same_number,
}
use my_test_module.Carrier.UserInfo.{
  UserInfo, Friend, Profile, Env, friend_info, act, take_string, same_bool, same_info,
  unpack_user_desc, described, description_of, notify_friend_description_cb, packet_of,
  described_self, set_self_info,
}

take_string_lem : (old new : List ℕ) → take_string old new ≡ new
take_string_lem old new = elim (Bool-cases (same_bytes old new)) [
  | inl same ↦ rw same (same_bytes-eq old new same)
  | inr other ↦ rw other refl
]

take_bool_lem : (old new : Bool) → (if same_bool old new then old else new) ≡ new
take_bool_lem true true = refl
take_bool_lem true false = refl
take_bool_lem false true = refl
take_bool_lem false false = refl

same_bool_refl : (b : Bool) → same_bool b b ≡ true
same_bool_refl true = refl
same_bool_refl false = refl

same_info_refl : (i : UserInfo) → same_info i i ≡ true
same_info_refl i =
    rw
      (
        same_bool_refl i.has_avatar,
        same_bytes_refl i.name,
        same_bytes_refl i.description,
        same_bytes_refl i.gender,
        same_bytes_refl i.phone,
        same_bytes_refl i.email,
        same_bytes_refl i.region,
      )
      refl

-- the information of `i` for the friend with the id of `old`
abbrev pub renamed : UserInfo → UserInfo → UserInfo
renamed old i = record i { userid = old.userid }

pub unpack-packet_of :
    (env : Env) (i old : UserInfo)
    → unpack_user_desc (some (packet_of env i)) old
      ≡ (value 0, (renamed old i, not (same_info old i)))
unfolding unpack_user_desc
unpack-packet_of env i old =
    rw
      (
        take_string_lem old.name i.name,
        take_string_lem old.description i.description,
        take_string_lem old.gender i.gender,
        take_string_lem old.phone i.phone,
        take_string_lem old.email i.email,
        take_string_lem old.region i.region,
        take_bool_lem old.has_avatar i.has_avatar,
      )
      refl

module _ (ew ep : Env) (w p : Profile) (i : UserInfo) (bytes : List ℕ) (n : ℕ) (f : Friend)
    (garbage : Bool) where
  -- what the friend has of the carrier afterwards, and that it is told when this is new
  abbrev pub learned : Profile
  learned =
      let p1 = record p {
        friends =
            put (λ x. same_number x.friend_number f.friend_number) p.friends
              (record f { info = renamed f.info i });
      } in
      if not (same_info f.info i) then act p1 (friend_info (renamed f.info i)) else p1

  -- New information for its own id becomes the carrier's, with success, and setting it again
  -- changes nothing. A friend with the carrier in its table who gets the packet as the description
  -- takes over all but the id of it, and its application is told if that is new, whatever the
  -- variable for it held. The packet is made, is not empty and decodes to what was encoded.
  pub set_self_info-description :
      same_bytes i.userid w.me.userid ≡ true
      → ew.creates ≡ true
      → same_info i w.me ≡ false
      → ew.encode (packet_of ew i) ≡ some bytes
      → ep.decode bytes ≡ some (packet_of ew i)
      → length bytes ≢ 0
      → get (λ x. same_number x.friend_number n) p.friends ≡ some f
      → ((set_self_info ew w i).1 ≡ value 0)
        × (((set_self_info ew w i).0.me ≡ i)
            × ((set_self_info ew (set_self_info ew w i).0 i ≡ ((set_self_info ew w i).0, value 0))
                × (notify_friend_description_cb ep p n bytes garbage ≡ learned)))
  unfolding set_self_info notify_friend_description_cb description_of
  set_self_info-description mine creates change encoded decoded full known =
      let set : set_self_info ew w i ≡ described_self ew w i (some bytes) =
        rw (mine, creates, change, encoded) refl in
      let own : i.userid ≡ w.me.userid = same_bytes-eq i.userid w.me.userid mine in
      let again : set_self_info ew (described_self ew w i (some bytes)).0 i
          ≡ ((described_self ew w i (some bytes)).0, value 0) =
        rw (mine, creates)
          (ap
            (λ b.
              if b
              then ((described_self ew w i (some bytes)).0, value 0)
              else described_self ew (described_self ew w i (some bytes)).0 i
                  (ew.encode (packet_of ew i)))
            (same_info_refl i)) in
      (
        ap (λ r. r.1) set,
        (
          ap (λ r. r.0.me) set ∙ ap (λ u. record i { userid = u }) (sym own),
          (
            ap (λ r. set_self_info ew r.0 i) set ∙ again ∙ ap (λ r. (r.0, value 0)) (sym set),
            ap (λ o. description_of p garbage (ep.decode bytes) (length bytes) o) known
                ∙ ap
                    (λ b.
                      if b
                      then p
                      else described p f garbage (unpack_user_desc (ep.decode bytes) f.info))
                    (==_of_ne (length bytes) 0 full)
                ∙ ap (λ d. described p f garbage (unpack_user_desc d f.info)) decoded
                ∙ ap (described p f garbage) (unpack-packet_of ew i f.info),
          ),
        ),
      )
