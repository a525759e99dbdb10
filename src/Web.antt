-- ===== src/Web.antt =====
-- The admin web server of main/web_server.cpp, as far as it is more than pages: form fields, sessions,
-- logins, dates, JSON texts and the gateway.
pub mod Forms
pub mod Fields
pub mod Session
pub mod Guessing
pub mod Ended
pub mod Dates
pub mod Calendar
pub mod Names
pub mod Opened
pub mod Json
pub mod Arrays
pub mod Files
mod Tests
