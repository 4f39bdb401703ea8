-- ===== src/HttpClient.antt =====
-- lib/http_client/src/http_client.cpp: `HttpClient::perform`, its callbacks, and the log entries of
-- lib/http_client/src/log_entry.h. What curl does with a request, the clock and the sleep are
-- parameters: an attempt is the calls curl made of the callbacks, its result, and a clock test.
pub mod Callbacks
pub mod LogEntry
pub mod Perform
pub mod Retry
pub mod Split
