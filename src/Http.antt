-- ===== src/Http.antt =====
-- projects/p4/p4a: the bytes that the web server and its client send to each other.
pub mod Bytes
pub mod Numbers
pub mod Replies
pub mod Requests
pub mod Client
mod Lines
mod Readhdrs
mod Printed
mod Shown
mod Received
mod Pages
mod Exchange
mod Errors
mod Tests
