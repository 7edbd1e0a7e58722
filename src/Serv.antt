-- ===== src/Serv.antt =====
-- src/serv.cpp, src/proc_kv.cpp and src/proc_queue.cpp: the commands of the server.
pub mod Kv
pub mod Queue
pub mod Commands
pub mod Loop
