-- ===== src/Tracker/Http.antt =====
-- pset4/tracker/http.cc: the texts of the tracker.
pub mod Ipv4
pub mod Params
pub mod Replies
