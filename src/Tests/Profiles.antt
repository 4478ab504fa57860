-- ===== src/Tests/Profiles.antt =====
-- carrier/IOEX_carrier.c: a carrier "A" that gives itself a name, and a friend of it.
use my_test_module.Prelude.{
  ℕ, ◌≡◌, refl, true, false, List, [], ◌∷◌, Option, none, some, arith, pos,
}
use my_test_module.Prelude.Returns.{value}
use my_test_module.Carrier.CString
use my_test_module.Carrier.Friends
use my_test_module.Carrier.UserInfo.{
  UserInfo, Desc, user_info, other, Friend, Profile, Env, friend_info, dht_self_set_desc, stored,
  notify_friend_description_cb, set_self_info, unpack_user_desc, description_of,
}
use my_test_module.Carrier.UserInfo.Laws.{learned, set_self_info-description}

abbrev encode : Desc → Option (List ℕ)
encode (user_info avatar (some name) descr gender phone email region) = some (0 ∷ name)
encode (user_info avatar none descr gender phone email region) = none
encode other = none

abbrev decode : List ℕ → Option Desc
decode [] = none
decode (kind ∷ name) =
    some (user_info false (some name) (some []) (some []) (some []) (some []) (some []))

-- Only the name is encoded.
abbrev names : Env
names = record {
  creates = true;
  encode = encode;
  decode = decode;
  self_status = pos 0;
  self_info = none;
  self_info_error = 1;
}

abbrev named : List ℕ → UserInfo
named name = record {
  userid = 65 ∷ [];
  name = name;
  description = [];
  has_avatar = false;
  gender = [];
  phone = [];
  email = [];
  region = [];
}

abbrev profile : UserInfo → List Friend → Profile
profile i fs = record {
  me = i;
  base58_addr = [];
  presence_status = 0;
  friends = fs;
  error = value 0;
  trace = [];
}

abbrev one : Friend
one = record { friend_number = 7; info = named [] }

set_self_info-description_example :
    ((set_self_info names (profile (named []) []) (named (66 ∷ []))).1 ≡ value 0)
    × (((set_self_info names (profile (named []) []) (named (66 ∷ []))).0.me ≡ named (66 ∷ []))
        × ((set_self_info names
                (set_self_info names (profile (named []) []) (named (66 ∷ []))).0
                (named (66 ∷ []))
              ≡ ((set_self_info names (profile (named []) []) (named (66 ∷ []))).0, value 0))
            × (notify_friend_description_cb names
                  (profile (named []) (one ∷ []))
                  7
                  (0 ∷ 66 ∷ [])
                  false
                ≡ learned names names
                    (profile (named []) [])
                    (profile (named []) (one ∷ []))
                    (named (66 ∷ []))
                    (0 ∷ 66 ∷ [])
                    7
                    one
                    false)))
unfolding set_self_info Friends.Tables.same_number CString.c_string
set_self_info-description_example =
    set_self_info-description names names (profile (named []) []) (profile (named []) (one ∷ []))
      (named (66 ∷ [])) (0 ∷ 66 ∷ []) 7 one false refl refl refl refl refl (omega arith) refl

description_test :
    (notify_friend_description_cb names (profile (named []) (one ∷ [])) 7 (0 ∷ 66 ∷ []) false).trace
    ≡ friend_info (named (66 ∷ [])) ∷ []
unfolding notify_friend_description_cb description_of unpack_user_desc Friends.Tables.same_number
    CString.c_string
description_test = refl

set_self_info_test :
    (set_self_info names (profile (named []) []) (named (66 ∷ []))).0.trace
    ≡ stored ∷ dht_self_set_desc (0 ∷ 66 ∷ []) ∷ []
unfolding set_self_info
set_self_info_test = refl
