-- ===== src/Carrier/UserInfo.antt =====
-- carrier/IOEX_carrier.c on the user information: that of the carrier itself, which the DHT hands to
-- the friends as its description, and that of friends.
pub mod Laws
use my_test_module.Prelude.{
  ℕ, Bool, true, false, not, ◌&&◌, ◌||◌, List, [], ◌∷◌, Option, none, some, length, ltb, ◌==◌,
  if◌then◌else◌, ℤ, pos, negsuc,
}
use my_test_module.Prelude.Returns.{Code, value, fail}
use my_test_module.Carrier.Files.{invalid_args, out_of_memory}
use my_test_module.Carrier.Friends.Tables.{get, put, same_bytes, same_number}
use my_test_module.Carrier.Friends.Notify.{busy, or_empty}

-- the strings of IOEXUserInfo
pub record UserInfo : Type 0 where
  pub userid : List ℕ
  pub name : List ℕ
  pub description : List ℕ
  pub has_avatar : Bool
  pub gender : List ℕ
  pub phone : List ℕ
  pub email : List ℕ
  pub region : List ℕ

-- A packet of carrier/IOEXcp.c: whether there is an avatar, and the name, description, gender, phone,
-- email and region, each of which may be NULL
pub data Desc : Type 0 where
  user_info :
      Bool
      → Option (List ℕ)
      → Option (List ℕ)
      → Option (List ℕ)
      → Option (List ℕ)
      → Option (List ℕ)
      → Option (List ℕ)
      → Desc
  other : Desc

pub data Action : Type 0 where
  friend_info : UserInfo → Action
  dht_self_set_desc : List ℕ → Action
  dht_self_set_status : ℕ → Action
  dht_self_set_nospam : ℕ → Action
  stored : Action

pub record Friend : Type 0 where
  pub friend_number : ℕ
  pub info : UserInfo

pub record Profile : Type 0 where
  pub me : UserInfo
  pub base58_addr : List ℕ
  pub presence_status : ℕ
  pub friends : List Friend
  pub error : Code
  pub trace : List Action

-- `self_info` is what dht_get_self_info hands to get_self_info_cb, or its error: the address and the
-- key in base58, the status and the description.
pub record Env : Type 0 where
  pub creates : Bool
  pub encode : Desc → Option (List ℕ)
  pub decode : List ℕ → Option Desc
  pub self_status : ℤ
  pub self_info : Option (List ℕ × (List ℕ × (ℤ × List ℕ)))
  pub self_info_error : ℕ

abbrev pub act : Profile → Action → Profile
act w a = record w { trace = a ∷ w.trace }

abbrev pub refuse : Profile → ℕ → Profile × Code
refuse w e = (record w { error = fail e }, fail 1)

-- `if (strcmp(old, new)) strcpy(old, new);` and whether it did
abbrev pub take_string : List ℕ → List ℕ → List ℕ
take_string old new = if same_bytes old new then old else new

abbrev pub same_bool : Bool → Bool → Bool
same_bool true b = b
same_bool false b = not b

-- whether the strings and the avatar of the two are the same
abbrev pub same_info : UserInfo → UserInfo → Bool
same_info i j =
    same_bool i.has_avatar j.has_avatar
    && (same_bytes i.name j.name
        && (same_bytes i.description j.description
            && (same_bytes i.gender j.gender
                && (same_bytes i.phone j.phone
                    && (same_bytes i.email j.email && same_bytes i.region j.region)))))

-- the information of a packet
abbrev pub info_of :
    UserInfo
    → Bool
    → Option (List ℕ)
    → Option (List ℕ)
    → Option (List ℕ)
    → Option (List ℕ)
    → Option (List ℕ)
    → Option (List ℕ)
    → UserInfo
info_of info avatar name descr gender phone email region = record {
  userid = info.userid;
  name = take_string info.name (or_empty name);
  description = take_string info.description (or_empty descr);
  has_avatar = if same_bool info.has_avatar avatar then info.has_avatar else avatar;
  gender = take_string info.gender (or_empty gender);
  phone = take_string info.phone (or_empty phone);
  email = take_string info.email (or_empty email);
  region = take_string info.region (or_empty region);
}

-- the return code, the information and whether it has changed
unfoldable pub unpack_user_desc : Option Desc → UserInfo → Code × (UserInfo × Bool)
unpack_user_desc none info = (fail 1, (info, false))
unpack_user_desc (some other) info = (fail 1, (info, false))
unpack_user_desc (some (user_info avatar name descr gender phone email region)) info =
    let new = info_of info avatar name descr gender phone email region in
    (
      value 0,
      (
        new,
        not (
            same_bool info.has_avatar avatar
            && (same_bytes info.name (or_empty name)
                && (same_bytes info.description (or_empty descr)
                    && (same_bytes info.gender (or_empty gender)
                        && (same_bytes info.phone (or_empty phone)
                            && (same_bytes info.email (or_empty email)
                                && same_bytes info.region (or_empty region))))))),
      ),
    )

unfoldable pub get_presence_status : ℤ → ℕ
get_presence_status (negsuc k) = 0
get_presence_status (pos n) = if ltb busy n then busy else n

-- A friend's information is changed through the pointer of the table, so it stays where it is. Where
-- the packet is not one of information, `changed` was never written; this is `told_anyway`.
abbrev pub described : Profile → Friend → Bool → Code × (UserInfo × Bool) → Profile
described w f told_anyway (rc, (info, changed)) =
    let w1 = record w {
      friends =
          put (λ x. same_number x.friend_number f.friend_number) w.friends
            (record f { info = info });
    } in
    let tell : Bool = elim rc [ value k ↦ changed | fail e ↦ told_anyway ] in
    if tell then act w1 (friend_info info) else w1

unfoldable pub description_of : Profile → Bool → Option Desc → ℕ → Option Friend → Profile
description_of w told_anyway desc len none = w
description_of w told_anyway desc len (some f) =
    if len == 0 then w else described w f told_anyway (unpack_user_desc desc f.info)

module _ (env : Env) where
  -- `garbage` is what the variable `changed` held before
  unfoldable pub notify_friend_description_cb : Profile → ℕ → List ℕ → Bool → Profile
  notify_friend_description_cb w friend_number desc garbage =
      description_of w garbage (env.decode desc) (length desc)
        (get (λ x. same_number x.friend_number friend_number) w.friends)

  -- A packet has every string, and is that of the information.
  abbrev pub packet_of : UserInfo → Desc
  packet_of i =
      user_info i.has_avatar (some i.name) (some i.description) (some i.gender) (some i.phone)
        (some i.email) (some i.region)

  abbrev pub encoded : Desc → Option (List ℕ)
  encoded d = if env.creates then env.encode d else none

  abbrev pub described_self : Profile → UserInfo → Option (List ℕ) → Profile × Code
  described_self w info none = refuse w out_of_memory
  described_self w info (some bytes) = (
    act (act (record w { me = record info { userid = w.me.userid } }) (dht_self_set_desc bytes))
        stored,
    value 0,
  )

  unfoldable pub set_self_info : Profile → UserInfo → Profile × Code
  set_self_info w info =
      if not (same_bytes info.userid w.me.userid)
      then refuse w invalid_args
      else if not env.creates
      then refuse w out_of_memory
      else if same_info info w.me
      then (w, value 0)
      else described_self w info (env.encode (packet_of info))

  abbrev pub empty_info : UserInfo → UserInfo
  empty_info info = record {
    userid = info.userid;
    name = [];
    description = [];
    has_avatar = false;
    gender = [];
    phone = [];
    email = [];
    region = [];
  }

  abbrev pub with_desc : Profile → Option (List ℕ) → Profile
  with_desc w none = w
  with_desc w (some bytes) = act w (dht_self_set_desc bytes)

  -- the description of a carrier that has none
  unfoldable pub fill_empty_user_desc : Profile → Profile
  fill_empty_user_desc w = with_desc w (encoded (packet_of (empty_info w.me)))

  unfoldable pub get_self_info_cb : Profile → List ℕ → List ℕ → ℤ → List ℕ → Profile
  get_self_info_cb w address userid status desc =
      let w1 = record w {
        base58_addr = address;
        me = record (w.me) { userid = userid };
        presence_status = get_presence_status status;
      } in
      if length desc == 0
      then fill_empty_user_desc w1
      else record w1 { me = (unpack_user_desc (env.decode desc) w1.me).1.0 }

  unfoldable pub set_self_nospam : Profile → ℕ → Profile × Code
  set_self_nospam w nospam =
      let w1 = act w (dht_self_set_nospam nospam) in
      elim env.self_info [
        | none ↦ refuse w1 env.self_info_error
        | some (address, (userid, (status, desc))) ↦
            (act (get_self_info_cb w1 address userid status desc) stored, value 0)
      ]

  unfoldable pub set_self_presence : Profile → ℤ → Profile × Code
  set_self_presence w (negsuc k) = refuse w invalid_args
  set_self_presence w (pos status) =
      if ltb busy status
      then refuse w invalid_args
      else (act w (dht_self_set_status status), value 0)

  -- A status above the range is read as the lowest here.
  unfoldable pub get_self_presence : ℕ
  get_self_presence = elim env.self_status [
    | negsuc k ↦ 0
    | pos status ↦ if ltb busy status then 0 else status
  ]
