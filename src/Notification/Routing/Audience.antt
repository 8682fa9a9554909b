-- ===== src/Notification/Routing/Audience.antt =====
-- Who a message notifies.
use zvonilka.Base.{
  Text, Bool, List, [], ◌∷◌, arith, ◌≡◌, ◌≢◌, text_eq, any, text_eq_iff, ◌||◌, ◌&&◌, refl, not,
}
use zvonilka.Conversation.Models.{Conversation, ConversationKind, ConversationMember}
use zvonilka.Notification.Models.{Message}
use zvonilka.Notification.Routing.{
  insert_sorted, insert_all, is_mentioned, listeners, reply_ids, recipient_ids,
  active_conversation_member,
}

is_mentioned-insert_sorted :
    (a b : Text) (ids : List Text)
    → is_mentioned a (insert_sorted b ids) ≡ (text_eq b a || is_mentioned a ids)
unfolding is_mentioned insert_sorted
is_mentioned-insert_sorted a b [] = ground arith
is_mentioned-insert_sorted a b (c ∷ ids) =
    ground (arith, is_mentioned-insert_sorted a b ids, text_eq_iff b c)

is_mentioned-insert_all :
    (a : Text) (new ids : List Text)
    → is_mentioned a (insert_all new ids) ≡ (is_mentioned a new || is_mentioned a ids)
unfolding is_mentioned insert_all
is_mentioned-insert_all a [] ids = ground arith
is_mentioned-insert_all a (b ∷ new) ids =
    ground (
      arith,
      is_mentioned-insert_all a new ids,
      is_mentioned-insert_sorted a b (insert_all new ids),
    )

-- A member that is active and is not the sender.
unfoldable pub hears : Text → Text → ConversationMember → Bool
hears sender a m = active_conversation_member m && text_eq m.account_id a && not (text_eq a sender)

is_mentioned-listeners :
    (a sender : Text) (ms : List ConversationMember)
    → is_mentioned a (listeners sender ms) ≡ any (hears sender a) ms
unfolding is_mentioned listeners hears
is_mentioned-listeners a sender [] = refl
is_mentioned-listeners a sender (m ∷ ms) =
    ground (arith, is_mentioned-listeners a sender ms, text_eq_iff m.account_id a)

-- The recipients of a message outside saved messages are the account that it replies to, those that it
-- mentions, and each active member that is not the sender; nobody else.
pub is_mentioned-recipient_ids :
    (conversation : Conversation) (message : Message) (members : List ConversationMember) (a : Text)
    → conversation.kind ≢ ConversationKind.saved_messages
    → is_mentioned a (recipient_ids conversation message members) ≡ (
        is_mentioned a (reply_ids message)
        || is_mentioned a message.mention_account_ids
        || any (hears message.sender_account_id a) members)
unfolding recipient_ids is_mentioned
is_mentioned-recipient_ids conversation message members a n =
    let heard = listeners message.sender_account_id members in
    let mentioned = insert_all message.mention_account_ids (insert_all heard []) in
    ground (
      arith,
      is_mentioned-insert_all a (reply_ids message) mentioned,
      is_mentioned-insert_all a message.mention_account_ids (insert_all heard []),
      is_mentioned-insert_all a heard [],
      is_mentioned-listeners a message.sender_account_id members,
    )
