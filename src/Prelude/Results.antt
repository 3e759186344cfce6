-- ===== src/Prelude/Results.antt =====
-- `std::expected` and its error codes, from include/iouring_runtime/core/Error.h.
pub data CoreError : Type 0 where
  invalid_argument resource_exhausted already_exists not_found : CoreError

pub data IoError : Type 0 where
  connection_refused disconnected timeout send_failed malformed_packet bind_failed : IoError
  listen_failed : IoError

-- `std::expected<A, E>`
pub data Expected (A E : Type 0) : Type 0 where
  value : A → Expected A E
  unexpected : E → Expected A E
