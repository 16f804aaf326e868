-- ===== src/Api.antt =====
-- The caller of the API and what it may do (src/lenovmail/api/deps.py), and the handlers of the
-- outgoing queue and of agent tokens (src/lenovmail/api/routes/mail.py, src/lenovmail/api/routes/agent.py).
-- A handler returns its answer, or the error that it raises.
pub mod Principal
pub mod Queueing
pub mod Tokens
