-- ===== src/Api/Auth/Csrf.antt =====
-- What a session's cookie needs beside it.
use kryneth_oss.Api.{Method, get, head, options}

-- The methods other than GET, HEAD and OPTIONS.
abbrev pub Changes : Method → Type 0
Changes get = ⊥
Changes head = ⊥
Changes options = ⊥
Changes _ = Unit
