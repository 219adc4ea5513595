-- ===== src/Recovery/Tests/Notices.antt =====
-- One failure that is notified while it is processed.
use failure_resolver.Prelude.{◌≡◌, refl, true, false, some, [], ◌∷◌, ◌++◌, strip}
use failure_resolver.Json.{str, mem}
use failure_resolver.Recovery.Inputs.{uuid_text, is_uuid}
use failure_resolver.Recovery.Queue.{
  Queue, notify_failure, finish_processing, fresh, Reachable, new, after, notified,
  notify_canonical,
}
use failure_resolver.Recovery.Queue.Bounded.{
  IsValid, Reachable-IsValid, finish_processing-notify_failure,
}
use failure_resolver.Recovery.Tests.Samples.{python, some_uuid}

-- The queue that processes the failure.
abbrev busy : Queue
busy = notify_failure python (str some_uuid) (fresh python true)

busy_reached : Reachable python busy
busy_reached = after (new true) (notified (str some_uuid) (fresh python true))

canonical : uuid_text python (str some_uuid) ≡ some some_uuid
unfolding uuid_text strip is_uuid
canonical = refl

busy_enabled : busy.enabled ≡ true
unfolding notify_failure mem strip is_uuid uuid_text notify_canonical
busy_enabled = refl

busy_runs : busy.stopped ≡ false
unfolding notify_failure mem strip is_uuid uuid_text notify_canonical
busy_runs = refl

busy_pending : mem some_uuid busy.pending ≡ true
unfolding notify_failure mem strip is_uuid uuid_text notify_canonical
busy_pending = refl

Reachable-IsValid_example : IsValid busy
Reachable-IsValid_example = Reachable-IsValid python busy_reached

finish_processing-notify_failure_example :
    (finish_processing python some_uuid (notify_failure python (str some_uuid) busy)).started
    ≡ busy.started ++ some_uuid ∷ []
finish_processing-notify_failure_example =
    finish_processing-notify_failure python (str some_uuid) some_uuid busy_reached busy_enabled
      busy_runs canonical canonical busy_pending
