-- ===== src/Research.antt =====
-- internal/research: public reads for the agents.
pub mod RateLimit
