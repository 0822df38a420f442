-- ===== src/WebServer.antt =====
-- hw3/webserver-files: the request queue, the threads that share it, and the HTTP requests.
pub mod NodeHeap
pub mod Queue
pub mod Options
pub mod Request
pub mod Server
