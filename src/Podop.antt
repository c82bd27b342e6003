-- ===== src/Podop.antt =====
-- core/base/libs/podop: the proxy between Dovecot and Postfix and the admin's HTTP API.
pub mod Escape
pub mod Dict
pub mod Netstring
pub mod Socketmap
