-- ===== src/VirtualBox/Version/Accepted.antt =====
-- Which versions are accepted.
