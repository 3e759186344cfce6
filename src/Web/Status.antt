-- ===== src/Web/Status.antt =====
-- include/iouring_runtime/web/HttpStatus.h: the statuses of a response.
use iouring_runtime.Prelude.{ℕ, Text, codes}

pub data HttpStatus : Type 0 where
  ok created no_content moved_permanently found not_modified bad_request unauthorized : HttpStatus
  forbidden not_found method_not_allowed request_timeout payload_too_large : HttpStatus
  uri_too_long request_header_fields_too_large internal_server_error not_implemented : HttpStatus
  bad_gateway service_unavailable : HttpStatus

-- `static_cast<int>` of a status
unfoldable pub status_code : HttpStatus → ℕ
status_code ok = 200
status_code created = 201
status_code no_content = 204
status_code moved_permanently = 301
status_code found = 302
status_code not_modified = 304
status_code bad_request = 400
status_code unauthorized = 401
status_code forbidden = 403
status_code not_found = 404
status_code method_not_allowed = 405
status_code request_timeout = 408
status_code payload_too_large = 413
status_code uri_too_long = 414
status_code request_header_fields_too_large = 431
status_code internal_server_error = 500
status_code not_implemented = 501
status_code bad_gateway = 502
status_code service_unavailable = 503

unfoldable pub http_status_to_string : HttpStatus → Text
http_status_to_string ok = codes "OK"
http_status_to_string created = codes "Created"
http_status_to_string no_content = codes "No Content"
http_status_to_string moved_permanently = codes "Moved Permanently"
http_status_to_string found = codes "Found"
http_status_to_string not_modified = codes "Not Modified"
http_status_to_string bad_request = codes "Bad Request"
http_status_to_string unauthorized = codes "Unauthorized"
http_status_to_string forbidden = codes "Forbidden"
http_status_to_string not_found = codes "Not Found"
http_status_to_string method_not_allowed = codes "Method Not Allowed"
http_status_to_string request_timeout = codes "Request Timeout"
http_status_to_string payload_too_large = codes "Payload Too Large"
http_status_to_string uri_too_long = codes "URI Too Long"
http_status_to_string request_header_fields_too_large = codes "Request Header Fields Too Large"
http_status_to_string internal_server_error = codes "Internal Server Error"
http_status_to_string not_implemented = codes "Not Implemented"
http_status_to_string bad_gateway = codes "Bad Gateway"
http_status_to_string service_unavailable = codes "Service Unavailable"
