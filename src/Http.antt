-- ===== src/Http.antt =====
-- What answers a request after the handlers: the exception filter and the response interceptor
-- (api-gateway/src/common/).
pub mod Filter
pub mod Disclosure
pub mod Interceptor
mod Tests
