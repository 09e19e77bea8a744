-- ===== src/Ipc.antt =====
-- ipc/src: the wire formats between a kernel client and a driver process. An encoder returns its bytes;
-- a decoder returns the value and how many bytes it took.
pub mod Strings
pub mod Fs
pub mod Sockets
pub mod Marshal
