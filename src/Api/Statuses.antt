-- ===== src/Api/Statuses.antt =====
-- apiserver/controllers/controllers.go: the status that a client sees for an error of the manager.
use coriolis_snapshot_agent.Common.{ℕ, ◌≡◌, String, arith}
use coriolis_snapshot_agent.Errors.{Kind, typed, not_found, unauthorized, bad_request, conflict}
use coriolis_snapshot_agent.Errors.Matching.{wraps, cause-wraps}
use coriolis_snapshot_agent.Api.{replied, handle_cause, handle_error, api_error}

-- The status and the text for each error type; a type without its own is an error of the server.
unfoldable pub status : Kind → ℕ
status not_found = 404
status unauthorized = 401
status bad_request = 400
status conflict = 409
status k = 500

unfoldable pub title : Kind → String
title not_found = "Not Found"
title unauthorized = "Not Authorized"
title bad_request = "Bad Request"
title conflict = "Conflict"
title k = "Server error"

by_kind :
    {A : Type 0} (k : Kind)
    → handle_cause {A = A} (typed k) ≡ replied (status k) (api_error (title k))
unfolding handle_cause status title
by_kind k = ground (arith)

-- `handleError` sees through every wrap that the manager put around an error of errors.go: however
-- often it is wrapped, the reply is that of its type, which for all but four types is status 500.
pub handle_error-wraps :
    {A : Type 0} (n : ℕ) (k : Kind)
    → handle_error {A = A} (wraps n (typed k)) ≡ replied (status k) (api_error (title k))
unfolding handle_error
handle_error-wraps n k = rw (cause-wraps n k) (by_kind k)
