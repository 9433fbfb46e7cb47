-- ===== src/SecurityAudit.antt =====
-- The events of common/services/security-audit.service.ts, with their type, user and email.
use talent_flow_ai_backend.Prelude.{String, Option}

pub data SecurityEventType : Type 0 where
  login_success login_failed login_blocked logout token_refresh token_refresh_failed signup
        password_change role_change account_locked account_unlocked unauthorized_access :
      SecurityEventType

pub record SecurityEvent : Type 0 where
  pub event_type : SecurityEventType
  pub user_id : Option String
  pub email : Option String
