-- ===== src/Middleware/Logging.antt =====
-- internal/api/middleware/logging.go: `responseWriter`, which keeps the status that is logged. The
-- `http.ResponseWriter` inside it sends the first status that it is given, and 200 where a handler
-- gives none.
use docpulse.Base.{ℕ, ◌≡◌, refl, Option, none, some, List, [], ◌∷◌}

pub record ResponseWriter : Type 0 where
  pub sent : Option ℕ
  pub status : ℕ

send : Option ℕ → ℕ → Option ℕ
send none code = some code
send (some first) code = some first

pub write_header : ResponseWriter → ℕ → ResponseWriter
write_header writer code = record { sent = send writer.sent code; status = code }

pub write_headers : ResponseWriter → List ℕ → ResponseWriter
write_headers writer [] = writer
write_headers writer (code ∷ codes) = write_headers (write_header writer code) codes

-- What `Logging` logs for a handler that calls `WriteHeader` with these statuses.
pub logged_status : List ℕ → ℕ
logged_status codes = (write_headers (record { sent = none; status = 200 }) codes).status

abbrev or_200 : Option ℕ → ℕ
or_200 none = 200
or_200 (some code) = code

pub sent_status : List ℕ → ℕ
sent_status codes = or_200 (write_headers (record { sent = none; status = 200 }) codes).sent

-- For a handler that writes one status the log has the status that is sent.
logged_status-sent_status : (code : ℕ) → logged_status (code ∷ []) ≡ sent_status (code ∷ [])
unfolding logged_status sent_status write_headers write_header send
logged_status-sent_status code = refl
