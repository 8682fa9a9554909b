-- ===== src/Conversation/Moderation/Target/Keys.antt =====
-- The target ids of topics: internal/domain/conversation/policy.go, moderationKey and
-- splitModerationKey.
use zvonilka.Base.{
  ◌≡◌, Text, trim_space, is_empty, false, [], arith, has_code, cut-append, trim_space-joined, ◌++◌,
  ◌∷◌,
}
use zvonilka.Conversation.Moderation.Target.{
  separator, moderation_key, split_moderation_key, split_trimmed,
}

split_joined :
    (conversation_id topic_id : Text)
    → has_code separator conversation_id ≡ false
    → split_trimmed (conversation_id ++ (separator ∷ topic_id)) ≡ (conversation_id, topic_id)
unfolding split_trimmed
split_joined [] topic_id h = ground (arith, cut-append separator [] topic_id)
split_joined (b ∷ rest) topic_id h = ground (arith, cut-append separator (b ∷ rest) topic_id)

-- Where neither id is empty once trimmed and the conversation's holds no separator, the target id
-- that is built of them splits into the two trimmed ids.
pub split_moderation_key-moderation_key :
    (conversation_id topic_id : Text)
    → is_empty (trim_space conversation_id) ≡ false
    → is_empty (trim_space topic_id) ≡ false
    → has_code separator (trim_space conversation_id) ≡ false
    → split_moderation_key (moderation_key conversation_id topic_id)
      ≡ (trim_space conversation_id, trim_space topic_id)
unfolding split_moderation_key moderation_key
split_moderation_key-moderation_key conversation_id topic_id c t h =
    let whole = trim_space conversation_id ++ (separator ∷ trim_space topic_id) in
    let keyed : moderation_key conversation_id topic_id ≡ whole = ground arith in
    rw (keyed, trim_space-joined conversation_id topic_id separator c t)
      (split_joined (trim_space conversation_id) (trim_space topic_id) h)
