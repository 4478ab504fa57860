-- ===== src/Carrier/Friends/Invitation.antt =====
-- An invitation of carrier/IOEX_carrier.c and the answer to it, between two carriers.
use my_test_module.Prelude.{
  ℕ, ◌≡◌, ◌≢◌, refl, ap, ◌∙◌, true, false, List, [], Option, none, some, length, ◌==◌, ==_of_eq,
  ==_of_ne, if◌then◌else◌,
}
use native.Mathlib.Decide.{ℕ_discrete}
use my_test_module.Prelude.Returns.{value}
use my_test_module.Carrier.Files.{invalid_args, not_exist}
use my_test_module.Carrier.Friends.{
  FriendInfo, TransactedCallback, HistoryItem, Carrier, Env, Cp, invite_request, invite_response,
  dht_message, friend_invite, invite_answer, act,
}
use my_test_module.Carrier.Friends.Tables.{
  get, get-put, remove-put, same_bytes, same_bytes_refl, invite_key, friends_get,
  transacted_callbacks_get, transacted_callbacks_put, transacted_callbacks_remove,
  history_put_invite, history_get_invite, history_remove_invite,
}
use my_test_module.Carrier.Friends.Messages.{
  parse_address, recipient, generate_tid, response, is_incomplete, invite_friend,
  reply_friend_invite,
}
use my_test_module.Carrier.Friends.Receive.{
  handle_packet, handle_invite_request, handle_invite_response, notify_friend_message_cb,
}

-- a transaction that is stored is found, and is gone when it is removed
callbacks_get-put :
    (cs : List TransactedCallback) (c : TransactedCallback)
    → transacted_callbacks_get (transacted_callbacks_put cs c) c.tid ≡ some c
unfolding transacted_callbacks_get transacted_callbacks_put
callbacks_get-put cs c = get-put (λ x. x.tid == c.tid) cs c (==_of_eq c.tid c.tid refl)

callbacks_remove-put :
    (cs : List TransactedCallback) (c : TransactedCallback)
    → transacted_callbacks_get cs c.tid ≡ none
    → transacted_callbacks_remove (transacted_callbacks_put cs c) c.tid ≡ cs
unfolding transacted_callbacks_get transacted_callbacks_put transacted_callbacks_remove
callbacks_remove-put cs c new =
    remove-put (λ x. x.tid == c.tid) cs c (==_of_eq c.tid c.tid refl) new

history_get-put :
    (hs : List HistoryItem) (id : List ℕ) (t : ℕ)
    → history_get_invite (history_put_invite hs id t) id ≡ t
unfolding history_get_invite history_put_invite
history_get-put hs id t =
    rw
      (get-put (λ x. same_bytes x.key (invite_key id)) hs (record { key = invite_key id; tid = t })
        (same_bytes_refl (invite_key id)))
      refl

history_remove-put :
    (hs : List HistoryItem) (id : List ℕ) (t : ℕ)
    → get (λ (x : HistoryItem). same_bytes x.key (invite_key id)) hs ≡ none
    → history_remove_invite (history_put_invite hs id t) id ≡ hs
unfolding history_remove_invite history_put_invite
history_remove-put hs id t new =
    remove-put (λ x. same_bytes x.key (invite_key id)) hs (record { key = invite_key id; tid = t })
      (same_bytes_refl (invite_key id)) new

-- The carrier `wa` invites the friend at `to`, which it knows by the number `nb`, and the carrier
-- `wb` knows the inviter by the number `na` and answers.
module _ (ea eb : Env) (wa wb : Carrier) (to : List ℕ) (content : List ℕ) (callback nb na tid : ℕ)
    (fa fb : FriendInfo) (bytes bytes' : List ℕ) (status : ℕ) (reason : Option (List ℕ))
    (reply : List ℕ) where
  -- The inviter is ready, has memory and a transaction id that is not in use, its packet goes out,
  -- and the answer comes from the friend that it invited.
  pub record IsInviter : Type 0 where
    pub full : length content ≢ 0
    pub known : recipient ea false not_exist wa to ≡ value nb
    pub creates : ea.creates ≡ true
    pub allocates : ea.allocates ≡ true
    pub drawn : generate_tid ea.draws ≡ some tid
    pub plain : (parse_address to).1 ≡ none
    pub encoded : ea.encode (invite_request none tid content) ≡ some bytes
    pub delivered : ea.dht_friend_message nb bytes ≡ value 0
    pub friend : friends_get wa.friends nb ≡ some fb
    pub new : transacted_callbacks_get wa.tcallbacks tid ≡ none

  -- The invited carrier knows the inviter, is ready and has memory, it has no other invitation of the
  -- inviter, its answer is complete and goes out.
  pub record IsInvited : Type 0 where
    pub friend : friends_get wb.friends na ≡ some fa
    pub complete : is_incomplete fa.userid status reason reply ≡ false
    pub known : recipient eb false invalid_args wb fa.userid ≡ value na
    pub plain : (parse_address fa.userid).1 ≡ none
    pub new : get (λ (x : HistoryItem). same_bytes x.key (invite_key fa.userid)) wb.thistory ≡ none
    pub creates : eb.creates ≡ true
    pub encoded : eb.encode (response none tid status reason reply) ≡ some bytes'
    pub delivered : eb.dht_friend_message na bytes' ≡ value 0

  -- the invitation is sent
  abbrev pub inviting : Carrier
  inviting =
      act
        (record wa {
          tcallbacks =
              transacted_callbacks_put wa.tcallbacks (record { tid = tid; callback = callback });
        })
        (dht_message nb bytes)

  pub invite_friend_lem :
      length content ≢ 0
      → recipient ea false not_exist wa to ≡ value nb
      → ea.creates ≡ true
      → ea.allocates ≡ true
      → generate_tid ea.draws ≡ some tid
      → ea.encode (invite_request (parse_address to).1 tid content) ≡ some bytes
      → (k : ℕ) → ea.dht_friend_message nb bytes ≡ value k
      → invite_friend ea wa to content callback ≡ some (inviting, value 0)
  unfolding invite_friend
  invite_friend_lem full known creates allocates drawn encoded k delivered =
      rw (==_of_ne (length content) 0 full, known, creates, drawn, encoded, allocates, delivered)
        refl

  -- the invitation is received
  abbrev pub invited_by : Carrier
  invited_by =
      act (record wb { thistory = history_put_invite wb.thistory fa.userid tid })
        (friend_invite fa.userid content)

  pub receive_invite_lem :
      eb.decode bytes ≡ some (invite_request none tid content)
      → friends_get wb.friends na ≡ some fa
      → notify_friend_message_cb eb wb na bytes ≡ invited_by
  unfolding notify_friend_message_cb handle_packet handle_invite_request
  receive_invite_lem decoded known = rw (decoded, known) refl

  -- the answer is sent
  abbrev pub replying : Carrier
  replying = record (act invited_by (dht_message na bytes')) { thistory = wb.thistory }

  pub reply_friend_invite_lem :
      is_incomplete fa.userid status reason reply ≡ false
      → recipient eb false invalid_args invited_by fa.userid ≡ value na
      → (parse_address fa.userid).1 ≡ none
      → tid ≢ 0
      → get (λ (x : HistoryItem). same_bytes x.key (invite_key fa.userid)) wb.thistory ≡ none
      → eb.creates ≡ true
      → eb.encode (response none tid status reason reply) ≡ some bytes'
      → (k : ℕ) → eb.dht_friend_message na bytes' ≡ value k
      → reply_friend_invite eb invited_by fa.userid status reason reply ≡ (replying, value 0)
  unfolding reply_friend_invite
  reply_friend_invite_lem complete known plain real new creates encoded k delivered =
      rw
        (
          complete,
          known,
          history_get-put wb.thistory fa.userid tid,
          ==_of_ne tid 0 real,
          creates,
          plain,
          encoded,
          delivered,
          history_remove-put wb.thistory fa.userid tid new,
        )
        refl

  -- the answer is received
  pub receive_answer_lem :
      ea.decode bytes' ≡ some (response none tid status reason reply)
      → friends_get wa.friends nb ≡ some fb
      → transacted_callbacks_get wa.tcallbacks tid ≡ none
      → notify_friend_message_cb ea inviting nb bytes'
        ≡ act
            (record inviting { tcallbacks = wa.tcallbacks })
            (if status == 0
              then invite_answer callback fb.userid status none reply
              else invite_answer callback fb.userid status reason [])
  unfolding notify_friend_message_cb handle_packet handle_invite_response
  receive_answer_lem decoded known new = elim (ℕ_discrete status 0) [
    | yes zero_status ↦
        let e = ==_of_eq status 0 zero_status in
        let d : ea.decode bytes' ≡ some (invite_response none tid status none reply) =
          decoded ∙ rw e refl in
        rw
          (
            d,
            known,
            callbacks_get-put wa.tcallbacks (record { tid = tid; callback = callback }),
            e,
            callbacks_remove-put wa.tcallbacks (record { tid = tid; callback = callback }) new,
          )
          refl
    | no other ↦
        let e = ==_of_ne status 0 other in
        let d : ea.decode bytes' ≡ some (invite_response none tid status reason []) =
          decoded ∙ rw e refl in
        rw
          (
            d,
            known,
            callbacks_get-put wa.tcallbacks (record { tid = tid; callback = callback }),
            e,
            callbacks_remove-put wa.tcallbacks (record { tid = tid; callback = callback }) new,
          )
          refl
  ]

  -- the answer has been handed to the callback of the invitation
  abbrev pub told : Carrier
  told =
      act (record inviting { tcallbacks = wa.tcallbacks })
        (if status == 0
          then invite_answer callback fb.userid status none reply
          else invite_answer callback fb.userid status reason [])

  -- the four steps: the invitation, its receipt, the answer and the receipt of that
  abbrev pub IsAnswered : Type 0
  IsAnswered =
      (invite_friend ea wa to content callback ≡ some (inviting, value 0))
      × ((notify_friend_message_cb eb wb na bytes ≡ invited_by)
          × ((reply_friend_invite eb invited_by fa.userid status reason reply ≡ (replying, value 0))
              × (notify_friend_message_cb ea inviting nb bytes' ≡ told)))

  -- When a carrier invites a friend without an extension, both know each other and are ready, the
  -- packets decode to what was encoded and are delivered, the transaction is new and the other
  -- carrier has no other invitation of it, then the invitation is sent, the other application is
  -- told of it, its answer is sent and reaches the callback of the invitation with its status and
  -- its reason or data; both carriers then have forgotten the transaction.
  pub invitation :
      IsInviter
      → IsInvited
      → tid ≢ 0
      → ((c : Cp) (b : List ℕ) → ea.encode c ≡ some b → eb.decode b ≡ some c)
      → ((c : Cp) (b : List ℕ) → eb.encode c ≡ some b → ea.decode b ≡ some c)
      → IsAnswered
  unfolding recipient
  invitation a b real there back = (
    invite_friend_lem a.full a.known a.creates a.allocates a.drawn
        (ap (λ e. ea.encode (invite_request e tid content)) a.plain ∙ a.encoded) 0 a.delivered,
    (
      receive_invite_lem (there (invite_request none tid content) bytes a.encoded) b.friend,
      (
        reply_friend_invite_lem b.complete b.known b.plain real b.new b.creates b.encoded 0
            b.delivered,
        receive_answer_lem (back (response none tid status reason reply) bytes' b.encoded) a.friend
            a.new,
      ),
    ),
  )
