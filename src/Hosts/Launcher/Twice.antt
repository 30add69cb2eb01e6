-- ===== src/Hosts/Launcher/Twice.antt =====
-- An upload of session.cpp and a round of the monitor of background_threads.cpp on the same host.
