-- ===== src/Conversation/Moderation/Audit/Trail.antt =====
-- What the audit trail keeps: internal/domain/conversation/audit.go.
use zvonilka.Base.{◌≡◌, Text, Time, ok, none, arith, Option, Result-cases, inl, inr, Option-cases}
use zvonilka.Base.Dict
use zvonilka.Conversation.Models.{ModerationAction}
use zvonilka.Conversation.Events.{EventEnvelope}
use zvonilka.Conversation.Store.{MemoryStore, SameRules, save_action, save_event}
use zvonilka.Conversation.Moderation.Audit.{
  Draws, save_moderation_action, save_moderation_action_with_sync_event, moderation_event,
  log_drawn,
}

-- The trail of `t` is that of `s` with one more action, under an id that was free.
pub record Logs (s t : MemoryStore) (saved : ModerationAction) : Type 0 where
  pub trail : t.moderation_actions_by_id ≡ Dict.put s.moderation_actions_by_id saved.id saved
  pub fresh : Dict.get s.moderation_actions_by_id saved.id ≡ none
  pub rules : SameRules s t

pub save_moderation_action-Logs :
    (s t : MemoryStore) (clock : Time) (draws : Draws) (given saved : ModerationAction)
    → save_moderation_action s clock draws given ≡ ok (saved, t)
    → Logs s t saved
unfolding save_moderation_action save_action
save_moderation_action-Logs s t clock draws given saved h = ground arith

save_event-trail :
    (s t : MemoryStore) (given saved : EventEnvelope)
    → save_event s given ≡ ok (saved, t)
    → (t.moderation_actions_by_id ≡ s.moderation_actions_by_id) × SameRules s t
unfolding save_event
save_event-trail s t given saved h = ground arith

-- An action that is logged with its sync event is one more of the trail, under an id that was free,
-- and leaves the policies, the restrictions and the rate states as they were.
pub with_sync_event-Logs :
    (s t : MemoryStore) (clock : Time) (draws : Draws) (conversation_id : Text)
    (given saved : ModerationAction) (event : Option EventEnvelope)
    → save_moderation_action_with_sync_event s clock draws conversation_id given
      ≡ ok ((saved, event), t)
    → Logs s t saved
unfolding save_moderation_action_with_sync_event
with_sync_event-Logs s t clock draws conversation_id given saved event h =
    elim (Result-cases (save_moderation_action s clock draws given)) [
      | inl ((a, m), e) ↦
          let logs : Logs s m a = save_moderation_action-Logs s m clock draws given a e in
          elim (Result-cases (save_event m (moderation_event draws conversation_id a))) [
            | inl ((v, n), q) ↦
                let after = save_event-trail m n (moderation_event draws conversation_id a) v q in
                ground arith
            | inr (x, q) ↦ ground arith
          ]
      | inr (x, e) ↦ ground arith
    ]

pub log_drawn-Logs :
    (s t : MemoryStore) (clock : Time) (draws : Draws) (conversation_id : Text)
    (action : Text → ModerationAction) (saved : ModerationAction) (event : Option EventEnvelope)
    → log_drawn s clock draws conversation_id action ≡ ok ((saved, event), t)
    → Logs s t saved
unfolding log_drawn
log_drawn-Logs s t clock draws conversation_id action saved event h =
    elim (Option-cases draws.action_id) [
      | inl e ↦ ground arith
      | inr (id, e) ↦
          with_sync_event-Logs s t clock draws conversation_id (action id) saved event
            (ground arith)
    ]
