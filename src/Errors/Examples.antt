-- ===== src/Errors/Examples.antt =====
-- The theorem about the text of an error at a failed query.
use kryneth_oss.Prelude.{◌≡◌, codes}
use kryneth_oss.Errors.{database_error, into_response, redact}
use kryneth_oss.Errors.Opaque.{into_response-redact}

into_response-redact_example :
    into_response (redact (database_error (codes "SELECT *")))
    ≡ into_response (database_error (codes "SELECT *"))
into_response-redact_example = into_response-redact (database_error (codes "SELECT *"))
