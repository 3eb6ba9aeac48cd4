-- ===== src/Processing/Laws.antt =====

