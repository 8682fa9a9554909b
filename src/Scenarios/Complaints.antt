-- ===== src/Scenarios/Complaints.antt =====
-- Bob reports Ann, and Ann rejects the report.
use zvonilka.Base.{
  codes, false, true, [], some, ok, ◌≡◌, refl, trim_space, trim_left, trim_right, is_space, text_eq,
  if◌then◌else◌, decimal,
}
use zvonilka.Base.Dict
use zvonilka.Conversation.Models.{ModerationReport, ModerationReportStatus, ModerationTargetKind}
use zvonilka.Conversation.Params.{SubmitModerationReportParams, ResolveModerationReportParams}
use zvonilka.Conversation.Store.{
  MemoryStore, memory_reads, report_by_id, save_report, save_action, save_event, is_reviewed_well,
  conversation_by_id, member_by, member_key, kind_text,
}
use zvonilka.Conversation.Moderation.Target.{lookup_moderation_conversation, can_moderate}
use zvonilka.Conversation.Moderation.Audit.{
  log_drawn, save_moderation_action_with_sync_event, save_moderation_action, trim_metadata,
  sync_visible_moderation_action, moderation_event_metadata, action_type_text,
}
use zvonilka.Conversation.Moderation.Restrictions.{authorize}
use zvonilka.Conversation.Moderation.Restrictions.Enforcement.{Authorized}
use zvonilka.Conversation.Moderation.Reports.{
  submit_moderation_report, resolve_moderation_report, admit_reporter, store_report,
  is_active_member,
}
use zvonilka.Conversation.Moderation.Reports.Review.{Reports, submit-Reports, resolve-Authorized}
use zvonilka.Scenarios.Moderation.{start, draws, more_draws, given}

abbrev complaint : SubmitModerationReportParams
complaint = record {
  target_kind = ModerationTargetKind.conversation;
  target_id = codes "room";
  reporter_account_id = codes "bob";
  target_account_id = codes "ann";
  reason = codes "rude";
  details = [];
  created_at = 0;
}

abbrev waiting : ModerationReport
waiting = record {
  id = codes "rep-1";
  target_kind = ModerationTargetKind.conversation;
  target_id = codes "room";
  reporter_account_id = codes "bob";
  target_account_id = codes "ann";
  reason = codes "rude";
  details = [];
  status = ModerationReportStatus.pending;
  reviewed_by_account_id = [];
  reviewed_at = 0;
  resolution = [];
  created_at = 100;
  updated_at = 100;
}

abbrev reported : ModerationReport × MemoryStore
reported =
    given (waiting, start)
      (submit_moderation_report start 100 (some (codes "rep-1")) draws complaint)

report_done :
    submit_moderation_report start 100 (some (codes "rep-1")) draws complaint
    ≡ ok (waiting, reported.1)
unfolding submit_moderation_report admit_reporter store_report is_active_member save_report
    lookup_moderation_conversation trim_space trim_left trim_right is_space text_eq Dict.get
    Dict.put memory_reads conversation_by_id member_by member_key log_drawn
    save_moderation_action_with_sync_event save_moderation_action save_action trim_metadata
    sync_visible_moderation_action moderation_event_metadata action_type_text kind_text decimal
    save_event
report_done = refl

submit-Reports_example :
    Reports start ModerationTargetKind.conversation
      (trim_space (codes "room"))
      (trim_space (codes "bob"))
    × (report_by_id reported.1 (codes "rep-1") ≡ ok waiting)
    × (waiting.status ≡ ModerationReportStatus.pending)
    × (is_reviewed_well waiting ≡ true)
submit-Reports_example =
    submit-Reports start reported.1 100 (codes "rep-1") draws complaint waiting report_done

abbrev verdict : ResolveModerationReportParams
verdict = record {
  report_id = codes "rep-1";
  resolver_account_id = codes "ann";
  resolved = false;
  resolution = codes "fine";
  reviewed_at = 0;
}

abbrev closed : ModerationReport
closed = record waiting {
  status = ModerationReportStatus.rejected;
  reviewed_by_account_id = codes "ann";
  reviewed_at = 120;
  resolution = codes "fine";
  updated_at = 120;
}

abbrev judged : ModerationReport × MemoryStore
judged = given (closed, start) (resolve_moderation_report reported.1 120 more_draws verdict)

judge_done : resolve_moderation_report reported.1 120 more_draws verdict ≡ ok (closed, judged.1)
unfolding resolve_moderation_report report_by_id authorize can_moderate submit_moderation_report
    admit_reporter store_report is_active_member save_report lookup_moderation_conversation
    trim_space trim_left trim_right is_space text_eq Dict.get Dict.put memory_reads
    conversation_by_id member_by member_key log_drawn save_moderation_action_with_sync_event
    save_moderation_action save_action trim_metadata sync_visible_moderation_action
    moderation_event_metadata action_type_text kind_text decimal save_event
judge_done = refl

resolve-Authorized_example :
    (report : ModerationReport) × (report_by_id reported.1 (trim_space (codes "rep-1")) ≡ ok report)
    × Authorized reported.1 report.target_kind report.target_id (trim_space (codes "ann"))
    × (report_by_id judged.1 report.id ≡ ok closed)
    × (closed.status
        ≡ (if false then ModerationReportStatus.resolved else ModerationReportStatus.rejected))
    × (closed.reviewed_by_account_id ≡ trim_space (codes "ann"))
    × (is_reviewed_well closed ≡ true)
resolve-Authorized_example =
    resolve-Authorized reported.1 judged.1 120 more_draws verdict closed judge_done
