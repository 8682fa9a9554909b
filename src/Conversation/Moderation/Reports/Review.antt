-- ===== src/Conversation/Moderation/Reports/Review.antt =====
-- Who reports and who reviews, and what the store holds afterwards.
use zvonilka.Base.{
  trim_space-IsTrimmed, ◌≡◌, Text, Time, trim_space, true, ok, arith, Result-cases, inl, inr, refl,
  ◌∙◌, if◌then◌else◌, some,
}
use zvonilka.Base.Dict.{get-put_self}
use zvonilka.Conversation.Models.{
  Conversation, ConversationMember, ModerationTargetKind, ModerationReport, ModerationReportStatus,
  ModerationAction,
}
use zvonilka.Conversation.Params.{SubmitModerationReportParams, ResolveModerationReportParams}
use zvonilka.Conversation.Store.{
  MemoryStore, memory_reads, report_by_id, save_report, is_reviewed_well,
}
use zvonilka.Conversation.Moderation.Target.{lookup_moderation_conversation}
use zvonilka.Conversation.Moderation.Audit.{Draws, log_drawn}
use zvonilka.Conversation.Moderation.Audit.Trail.{Logs, log_drawn-Logs}
use zvonilka.Conversation.Moderation.Restrictions.{authorize}
use zvonilka.Conversation.Moderation.Restrictions.Enforcement.{Authorized, authorize-Authorized}
use zvonilka.Conversation.Moderation.Reports.{
  is_active_member, admit_reporter, store_report, trimmed_submit, new_report, submit_action,
  submit_moderation_report, trimmed_resolve, reviewed, resolve_action, resolve_moderation_report,
}

-- The reporter is an active member of the conversation of the target.
abbrev pub Reports : MemoryStore → ModerationTargetKind → Text → Text → Type 0
Reports s kind target_id reporter =
    (conversation : Conversation) × (member : ConversationMember) × (lookup_moderation_conversation
        (memory_reads s) kind target_id
      ≡ ok conversation)
    × ((memory_reads s).member_row conversation.id reporter ≡ ok member)
    × (is_active_member member ≡ true)

admit_reporter-Reports :
    (s : MemoryStore) (kind : ModerationTargetKind) (target_id reporter : Text)
    (found : Conversation)
    → admit_reporter (memory_reads s) kind target_id reporter ≡ ok found
    → Reports s kind target_id reporter
unfolding admit_reporter
admit_reporter-Reports s kind target_id reporter found h =
    elim (Result-cases (lookup_moderation_conversation (memory_reads s) kind target_id)) [
      | inr (x, e) ↦ ground arith
      | inl (conversation, e) ↦
          elim (Result-cases ((memory_reads s).member_row conversation.id reporter)) [
            | inr (x, q) ↦ ground arith
            | inl (member, q) ↦ (conversation, member, e, q, ground arith)
          ]
    ]

save_report-found :
    (s t : MemoryStore) (given saved : ModerationReport)
    → save_report s given ≡ ok (saved, t)
    → (report_by_id t given.id ≡ ok saved)
      × (saved.status ≡ given.status)
      × (is_reviewed_well saved ≡ true)
      × (saved.reviewed_by_account_id ≡ trim_space given.reviewed_by_account_id)
unfolding save_report report_by_id
save_report-found s t given saved h =
    ground (arith, get-put_self s.moderation_reports_by_id (trim_space given.id) saved)

report_by_id-reports :
    (s t : MemoryStore) (id : Text)
    → t.moderation_reports_by_id ≡ s.moderation_reports_by_id
    → report_by_id t id ≡ report_by_id s id
unfolding report_by_id
report_by_id-reports s t id e = rw e refl

store_report-found :
    (s t : MemoryStore) (clock : Time) (draws : Draws) (conversation_id : Text)
    (report saved : ModerationReport) (action : Text → ModerationAction)
    → store_report s clock draws conversation_id report action ≡ ok (saved, t)
    → (report_by_id t report.id ≡ ok saved)
      × (saved.status ≡ report.status)
      × (is_reviewed_well saved ≡ true)
      × (saved.reviewed_by_account_id ≡ trim_space report.reviewed_by_account_id)
unfolding store_report
store_report-found s t clock draws conversation_id report saved action h =
    elim (Result-cases (save_report s report)) [
      | inr (x, r) ↦ ground arith
      | inl ((row, m), r) ↦ elim (Result-cases (log_drawn m clock draws conversation_id action)) [
        | inr (x, q) ↦ ground arith
        | inl (((logged, event), n), q) ↦
            let logs : Logs m t logged =
              log_drawn-Logs m t clock draws conversation_id action logged event (ground arith) in
            let stored : save_report s report ≡ ok (saved, m) = ground arith in
            let (found, status, well, reviewer) = save_report-found s m report saved stored in
            (report_by_id-reports m t report.id logs.rules.reports ∙ found, status, well, reviewer)
      ]
    ]

-- A report that was submitted: its author is an active member of the conversation of the target; it
-- waits for a review, without a reviewer; and the store finds it under its id.
pub submit-Reports :
    (s t : MemoryStore) (clock : Time) (id : Text) (draws : Draws)
    (given : SubmitModerationReportParams) (saved : ModerationReport)
    → submit_moderation_report s clock (some id) draws given ≡ ok (saved, t)
    → Reports s given.target_kind
        (trim_space given.target_id)
        (trim_space given.reporter_account_id)
      × (report_by_id t id ≡ ok saved)
      × (saved.status ≡ ModerationReportStatus.pending)
      × (is_reviewed_well saved ≡ true)
unfolding submit_moderation_report
submit-Reports s t clock id draws given saved h =
    let params = trimmed_submit given clock in
    elim (Result-cases (
      admit_reporter (memory_reads s) params.target_kind params.target_id
        params.reporter_account_id)) [
          | inr (x, e) ↦ ground arith
          | inl (conversation, e) ↦
              let (found, status, well, reviewer) =
                store_report-found s t clock draws conversation.id (new_report params id) saved
                  (submit_action params id) (ground arith) in
              (
                admit_reporter-Reports s params.target_kind params.target_id
                    params.reporter_account_id conversation e,
                found,
                status,
                well,
              )
        ]

-- A review that succeeds: the store had the report; its author is a member that manages the
-- conversation of the report's target; and the store finds the saved row under the report's id, resolved
-- or rejected as the review says, with the author as its reviewer and a time of the review.
pub resolve-Authorized :
    (s t : MemoryStore) (clock : Time) (draws : Draws) (given : ResolveModerationReportParams)
    (saved : ModerationReport)
    → resolve_moderation_report s clock draws given ≡ ok (saved, t)
    → (report : ModerationReport) × (report_by_id s (trim_space given.report_id) ≡ ok report)
      × Authorized s report.target_kind report.target_id (trim_space given.resolver_account_id)
      × (report_by_id t report.id ≡ ok saved)
      × (saved.status ≡ (
          if given.resolved
          then ModerationReportStatus.resolved
          else ModerationReportStatus.rejected))
      × (saved.reviewed_by_account_id ≡ trim_space given.resolver_account_id)
      × (is_reviewed_well saved ≡ true)
unfolding resolve_moderation_report
resolve-Authorized s t clock draws given saved h =
    let params = trimmed_resolve given clock in
    elim (Result-cases (report_by_id s params.report_id)) [
      | inr (x, e) ↦ ground arith
      | inl (report, e) ↦
          elim (Result-cases (
            authorize (memory_reads s) report.target_kind report.target_id
              params.resolver_account_id)) [
                | inr (x, q) ↦ ground arith
                | inl (conversation, q) ↦
                    let (found, status, well, reviewer) =
                      store_report-found s t clock draws conversation.id (reviewed params report)
                        saved (resolve_action params report) (ground arith) in
                    (
                      report,
                      e,
                      authorize-Authorized s report.target_kind report.target_id
                          params.resolver_account_id conversation q,
                      found,
                      status,
                      reviewer ∙ trim_space-IsTrimmed given.resolver_account_id,
                      well,
                    )
              ]
    ]
