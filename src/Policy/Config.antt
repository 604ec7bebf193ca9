-- ===== src/Policy/Config.antt =====
-- policy/config.py: limits and defaults. What Python's Unicode tables and `uuid` compute is a
-- parameter, `Texts`.
use lemonbot.Prelude.{
  ℕ, String, Bool, true, false, ◌*◌, Option, List, [], ◌∷◌, string_eq, if◌then◌else◌,
}
use lemonbot.Prelude.Json.{Json}
use lemonbot.Domain.{Time, second}
use lemonbot.Storage.Allowlist.{contains}

-- `str.casefold` and `UUID(str(value))`, where `none` is its ValueError.
pub record Texts : Type 0 where
  pub casefold : String → String
  pub read_uuid : Json → Option String

pub record RateLimitProfile : Type 0 where
  pub reply_per_10_minutes : ℕ
  pub reply_per_hour : ℕ
  pub reply_per_day : ℕ
  pub global_per_day : ℕ
  pub proactive_cooldown_hours : ℕ
  pub proactive_per_day : ℕ
  pub proactive_global_per_day : ℕ
  pub proactive_enabled : Bool

abbrev pub wechat_lab_limits : RateLimitProfile
wechat_lab_limits = record {
  reply_per_10_minutes = 3;
  reply_per_hour = 10;
  reply_per_day = 30;
  global_per_day = 50;
  proactive_cooldown_hours = 12;
  proactive_per_day = 2;
  proactive_global_per_day = 10;
  proactive_enabled = false;
}

-- A time of day is its microseconds since midnight.
pub record PolicyConfig : Type 0 where
  pub quiet_enabled : Bool
  pub quiet_start : Time
  pub quiet_end : Time
  pub wechat_lab : RateLimitProfile
  pub fallback : RateLimitProfile
  pub auto_actions : List String
  pub approval_actions : List String

abbrev pub minute : Time
minute = 60 * second

abbrev pub hour : Time
hour = 60 * minute

abbrev pub day : Time
day = 24 * hour

abbrev pub default_config : PolicyConfig
default_config = record {
  quiet_enabled = true;
  quiet_start = 23 * hour;
  quiet_end = 8 * hour;
  wechat_lab = wechat_lab_limits;
  fallback = wechat_lab_limits;
  auto_actions =
      "reply" ∷ "model_call" ∷ "summarize" ∷ "memory_read" ∷ "memory_write" ∷ "browse_public_https"
      ∷ "vision_read" ∷ "read_file" ∷ "mcp_read" ∷ [];
  approval_actions = "write_file" ∷ "mcp_write" ∷ [];
}

abbrev wechat_channels : List String
wechat_channels =
    "wechat" ∷ "wechat_lab" ∷ "personal_wechat" ∷ "wechat_personal_lab" ∷ "wechat_agent_lab" ∷ []

unfoldable pub limits_for : Texts → PolicyConfig → String → RateLimitProfile
limits_for texts config channel =
    if contains (texts.casefold channel) wechat_channels then config.wechat_lab else config.fallback
