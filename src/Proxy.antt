-- ===== src/Proxy.antt =====
-- src/proxy and src/udp/socks5_udp_session.hpp: the client side of SOCKS5 and the TCP relay.
pub mod Stream
pub mod Handshake
pub mod Associate
pub mod Relay
