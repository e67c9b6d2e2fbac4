-- ===== src/Image.antt =====
-- src/image.cc: opening an image and serving its requests.
pub mod Recovery
pub mod Read
pub mod Requests
mod Tests
