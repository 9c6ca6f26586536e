-- ===== src/Status.antt =====
-- The status codes of protobuf's util::Status that the library produces. The messages are left
-- out; `other` stands for every further code that a transport may report.
use service_control_client_c.Prelude.{ℕ, Bool, true, false}

pub data Status : Type 0 where
  ok invalid_argument not_found out_of_range : Status
  other : ℕ → Status

-- `Status::ok()`
abbrev pub is_ok : Status → Bool
is_ok ok = true
is_ok _ = false

-- `status.code() == StatusCode::kNotFound`
abbrev pub is_not_found : Status → Bool
is_not_found not_found = true
is_not_found _ = false
