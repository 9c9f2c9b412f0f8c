-- ===== src/Api/Endpoints/Guarded.antt =====
-- No endpoint of signed-in users answers one who may not ask, and a refusal writes next to nothing.
