-- ===== src/Dispatcher.antt =====
-- dispatcher/: the requests that are sent to the Darknodes, and the responses that come back.
pub mod InterfaceMap
pub mod Iterator
pub mod Requests
