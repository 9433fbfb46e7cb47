-- ===== src/Queue/Shutdown.antt =====
-- `onModuleDestroy` while an attempt to connect is under way.
