-- ===== src/Conversation/Moderation/Reports.antt =====
-- internal/domain/conversation/reports.go: complaints and their review.
pub mod Review
use zvonilka.Base.{
  Text, codes, trim_space, is_empty, if◌then◌else◌, Bool, not, ◌&&◌, ◌||◌, Time, pos, is_zero,
  or_now, Option, [], ◌∷◌, Result, ok, err, ◌>>=◌, ◌>>◌, refuse_if,
}
use zvonilka.Conversation.Models.{
  Error, invalid_input, forbidden, Conversation, ConversationMember, ModerationTargetKind,
  ModerationReport, ModerationReportStatus, ModerationAction, ModerationActionType,
}
use zvonilka.Conversation.Params.{SubmitModerationReportParams, ResolveModerationReportParams}
use zvonilka.Conversation.Store.{
  StoreReads, MemoryStore, Saved, is_unspecified, memory_reads, report_by_id, save_report,
}
use zvonilka.Conversation.Moderation.Target.{lookup_moderation_conversation}
use zvonilka.Conversation.Moderation.Audit.{Draws, drawn, log_drawn}
use zvonilka.Conversation.Moderation.Restrictions.{authorize}

unfoldable pub is_active_member : ConversationMember → Bool
is_active_member member = is_zero member.left_at && not member.banned

-- The conversation of a target, where the reporter is an active member.
unfoldable pub admit_reporter :
    StoreReads → ModerationTargetKind → Text → Text → Result Error Conversation
admit_reporter reads kind target_id reporter = do
  conversation ← lookup_moderation_conversation reads kind target_id
  member ← reads.member_row conversation.id reporter
  refuse_if (not (is_active_member member)) forbidden
  ok conversation

-- The writes: the report, then the action that logs it.
unfoldable pub store_report :
    MemoryStore
    → Time
    → Draws
    → Text
    → ModerationReport
    → (Text → ModerationAction)
    → Saved ModerationReport
store_report s clock draws conversation_id report action = do
  (saved, s') ← save_report s report
  (logged, s'') ← log_drawn s' clock draws conversation_id action
  ok (saved, s'')

abbrev pub trimmed_submit : SubmitModerationReportParams → Time → SubmitModerationReportParams
trimmed_submit params clock = record params {
  target_id = trim_space params.target_id;
  reporter_account_id = trim_space params.reporter_account_id;
  target_account_id = trim_space params.target_account_id;
  reason = trim_space params.reason;
  details = trim_space params.details;
  created_at = or_now params.created_at clock;
}

abbrev pub new_report : SubmitModerationReportParams → Text → ModerationReport
new_report params report_id = record {
  id = report_id;
  target_kind = params.target_kind;
  target_id = params.target_id;
  reporter_account_id = params.reporter_account_id;
  target_account_id = params.target_account_id;
  reason = params.reason;
  details = params.details;
  status = ModerationReportStatus.pending;
  reviewed_by_account_id = [];
  reviewed_at = 0;
  resolution = [];
  created_at = params.created_at;
  updated_at = params.created_at;
}

abbrev pub submit_action : SubmitModerationReportParams → Text → Text → ModerationAction
submit_action params report_id action_id = record {
  id = action_id;
  target_kind = params.target_kind;
  target_id = params.target_id;
  actor_account_id = params.reporter_account_id;
  target_account_id = params.target_account_id;
  type = ModerationActionType.report_set;
  duration = pos 0;
  reason = params.reason;
  metadata = (codes "report_id", report_id) ∷ [];
  created_at = params.created_at;
}

-- One transaction: an error leaves the store as it was. `drawn_id` is the id that is drawn for the
-- report.
unfoldable pub submit_moderation_report :
    MemoryStore → Time → Option Text → Draws → SubmitModerationReportParams → Saved ModerationReport
submit_moderation_report s clock drawn_id draws given = do
  let params = trimmed_submit given clock
  refuse_if
      (is_unspecified params.target_kind
        || is_empty params.target_id
        || is_empty params.reporter_account_id
        || is_empty params.reason)
      invalid_input
  conversation ←
      admit_reporter (memory_reads s) params.target_kind params.target_id params.reporter_account_id
  report_id ← drawn drawn_id
  store_report s clock draws conversation.id (new_report params report_id)
      (submit_action params report_id)

abbrev pub trimmed_resolve : ResolveModerationReportParams → Time → ResolveModerationReportParams
trimmed_resolve params clock = record params {
  report_id = trim_space params.report_id;
  resolver_account_id = trim_space params.resolver_account_id;
  resolution = trim_space params.resolution;
  reviewed_at = or_now params.reviewed_at clock;
}

abbrev pub reviewed : ResolveModerationReportParams → ModerationReport → ModerationReport
reviewed params report = record report {
  status =
      if params.resolved then ModerationReportStatus.resolved else ModerationReportStatus.rejected;
  reviewed_by_account_id = params.resolver_account_id;
  reviewed_at = params.reviewed_at;
  resolution = params.resolution;
  updated_at = params.reviewed_at;
}

abbrev pub resolve_action :
    ResolveModerationReportParams → ModerationReport → Text → ModerationAction
resolve_action params report action_id = record {
  id = action_id;
  target_kind = report.target_kind;
  target_id = report.target_id;
  actor_account_id = params.resolver_account_id;
  target_account_id = report.target_account_id;
  type =
      if params.resolved
      then ModerationActionType.report_resolve
      else ModerationActionType.report_reject;
  duration = pos 0;
  reason = params.resolution;
  metadata = (codes "report_id", report.id) ∷ [];
  created_at = params.reviewed_at;
}

unfoldable pub resolve_moderation_report :
    MemoryStore → Time → Draws → ResolveModerationReportParams → Saved ModerationReport
resolve_moderation_report s clock draws given = do
  let params = trimmed_resolve given clock
  refuse_if (is_empty params.report_id || is_empty params.resolver_account_id) invalid_input
  report ← report_by_id s params.report_id
  conversation ←
      authorize (memory_reads s) report.target_kind report.target_id params.resolver_account_id
  store_report s clock draws conversation.id (reviewed params report) (resolve_action params report)
