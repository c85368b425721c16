-- ===== src/Defensics/Server.antt =====
-- `do_POST` of defensics/instrumentation_server.py: the answer to a request is the status as it is
-- right after the job was put on the queue. The path and the JSON of the body are the job.
use btptester_core.Prelude.{Option, none, some}
use btptester_core.Defensics.Automation.{
  AutomationStatus, Job, BtpAutomationHandler, post, get_status,
}

-- none where the request is never answered
unfoldable pub do_post :
    Job → BtpAutomationHandler → Option (AutomationStatus × BtpAutomationHandler)
unfolding post get_status
do_post job a = elim (post job a) [ none ↦ none | some r ↦ some (get_status r.1) ]
