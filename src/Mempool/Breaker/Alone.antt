-- ===== src/Mempool/Breaker/Alone.antt =====
-- mempool/monitor.go: a call and a tick that nothing interrupts.
