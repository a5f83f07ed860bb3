-- ===== src/Config/Env.antt =====
-- The settings without variables, and with a variable that does not parse.
use melsec_mc.Prelude.{String, Option, none, some, ◌≡◌, refl, str_eq, if◌then◌else◌}
use melsec_mc.Text.{parse_uint}
use melsec_mc.Config.{default_config, from_env}

from_env-none : from_env (λ name. none) ≡ default_config
unfolding from_env
from_env-none = refl

abbrev words_for_attempts : String → Option String
words_for_attempts name = if str_eq name "MELSEC_TCP_RETRY_ATTEMPTS" then some "three" else none

from_env_bad : from_env words_for_attempts ≡ default_config
unfolding from_env parse_uint
from_env_bad = refl
