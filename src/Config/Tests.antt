-- ===== src/Config/Tests.antt =====
-- A configuration from two variables.
use docpulse.Base.{◌≡◌, refl, arith, none, true, if◌then◌else◌}
use text.Mathlib.Text.{◌==◌ as str_eq}
use docpulse.Base.Int.{decimal, pos, negsuc}
use docpulse.Text.Utf8.{utf8}
use docpulse.Config.Numbers.{get_env_int-int_text}
use docpulse.Config.{Environment, Config, load, get_env_int, configuration}

abbrev env : Environment
env key =
    if str_eq key "WORKER_CONCURRENCY"
    then "12"
    else if str_eq key "LLM_MAX_RETRIES"
    then "-3"
    else if str_eq key "LLM_COMPLEXITY_THRESHOLD"
    then "ten"
    else if str_eq key "DEV_MODE"
    then "true"
    else ""

abbrev loaded : Config
loaded = load (λ d. none) env

loaded_worker : loaded.worker.concurrency ≡ pos 12
unfolding configuration utf8
loaded_worker = refl

loaded_retries : loaded.llm.max_retries ≡ negsuc 2
unfolding configuration utf8
loaded_retries = refl

loaded_threshold : loaded.llm.complexity_threshold ≡ pos 10
unfolding configuration utf8
loaded_threshold = refl

loaded_mode : loaded.api.dev_mode ≡ true
unfolding configuration
loaded_mode = refl

get_env_int_negative : get_env_int env "LLM_MAX_RETRIES" (pos 2) ≡ negsuc 2
unfolding decimal
get_env_int_negative =
    get_env_int-int_text env "LLM_MAX_RETRIES" (pos 2) (negsuc 2) (omega arith) refl
