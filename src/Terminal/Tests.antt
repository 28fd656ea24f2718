-- ===== src/Terminal/Tests.antt =====
-- The theorems about the terminal interface at concrete inputs.
use gem_gate.Prelude.{
  ℕ, ◌≡◌, ◌≤◌, ◌<◌, ◌*◌, ◌/◌, refl, true, false, some, pos, List, [], ◌∷◌, arith, length, ◌⊎◌,
}
use gem_gate.LogRing.{LogEntry}
use gem_gate.Gateway.Console.{ConfigSnapshot}
use gem_gate.Metrics.{new_metrics}
use gem_gate.Sorting.Ranks.{count, at_most, below}
use gem_gate.Terminal.Helpers.{Writing, human_bytes}
use gem_gate.Terminal.Helpers.Sizes.{InUnit, human_bytes_total}
use gem_gate.Terminal.Layout.{is_tiny, calculate_layout}
use gem_gate.Terminal.Stats.{percentile, summarize}
use gem_gate.Terminal.Stats.Percentile.{percentile_ranks}
use gem_gate.Terminal.Stats.Balance.{IsBalanced, summarize-IsBalanced}
use gem_gate.Terminal.Screen.{
  Seen, Widgets, new_model, resize, refresh, update_all, update_config_viewport, update_client_rows,
  update_provider_rows, update_log_rows,
}
use gem_gate.Terminal.Update.{Message, window_size, tick}
use gem_gate.Terminal.Update.Consistent.{run_messages}
use gem_gate.Terminal.Update.Rows.{RowsFit, run_messages-RowsFit}
use gem_gate.Text.{codes, is_empty, to_lower, has_prefix, text_eq, trim_space}
use gem_gate.Terminal.Setup.{
  SetupMessage, key_press, client_token_prefix, new_setup, run_setup, result, blank,
}
use gem_gate.Terminal.Setup.Filled.{run_setup-Filled}

-- A key is typed, and every field is entered.
abbrev entered : List SetupMessage
entered =
    key_press (codes "k")
    ∷ key_press (codes "enter")
    ∷ key_press (codes "enter")
    ∷ key_press (codes "enter")
    ∷ key_press (codes "enter")
    ∷ []

entered_quits : (run_setup (new_setup [] (codes "0f")) entered).1 ≡ true
unfolding run_setup text_eq new_setup trim_space has_prefix to_lower
entered_quits = refl

entered_kept : (result (run_setup (new_setup [] (codes "0f")) entered).0).was_cancelled ≡ false
unfolding run_setup result text_eq new_setup trim_space has_prefix to_lower
entered_kept = refl

run_setup-Filled_example :
    let ended = (run_setup (new_setup [] (codes "0f")) entered).0 in
    (is_empty (result ended).gemini_api_key ≡ false)
    × (is_empty (result ended).listen_address ≡ false)
    × (is_empty (result ended).client ≡ false)
    × (blank ended.fields.token_text ≡ false)
    × (has_prefix (to_lower (result ended).gemgate_token) client_token_prefix ≡ true)
run_setup-Filled_example = run_setup-Filled [] (codes "0f") entered entered_quits entered_kept

abbrev latencies : List ℕ
latencies = 30 ∷ 10 ∷ 20 ∷ []

percentile_ranks_example :
    (v : ℕ) × (percentile latencies 95 ≡ some v)
    × (length latencies * 95 ≤ count (at_most v) latencies * 100)
    × (count (below v) latencies * 100 < length latencies * 95)
percentile_ranks_example = percentile_ranks 30 (10 ∷ 20 ∷ []) 95 (omega arith) (omega arith)

abbrev writing : Writing
writing = record {
  decimal = λ n. n ∷ [];
  rounded = λ unit d. d ∷ [];
  one_place = λ n unit. n / unit ∷ [];
  percentage = λ part all. part ∷ [];
  clock = λ t. t ∷ [];
  short_clock = λ t. t ∷ [];
}

human_bytes_total_example :
    ((5000000 < 1024) × (human_bytes writing 5000000 ≡ some (5000000 ∷ codes " B")))
    ⊎ ((1024 ≤ 5000000) × InUnit writing 5000000)
human_bytes_total_example = human_bytes_total writing 5000000 (omega arith)

abbrev refused : LogEntry
refused = record {
  time = 7;
  level = codes "warn";
  client = codes "app";
  client_ip = [];
  provider = codes "ai";
  method = codes "GET";
  path = codes "/v1/models";
  status = 429;
  bytes = 12;
  duration = 3;
  request_id = [];
  message = [];
}

summarize-IsBalanced_example : IsBalanced (summarize 9 (refused ∷ refused ∷ []))
summarize-IsBalanced_example = summarize-IsBalanced 9 (refused ∷ refused ∷ [])

abbrev console : ConfigSnapshot Unit
console = record {
  listen = codes ":8";
  public_health = false;
  request_body_limit = [];
  trusted_proxies = [];
  dedicated_operations_auth = false;
  rate_limit_backend = codes "memory";
  rate_limit_mode = [];
  rate_limit_fail_open = false;
  telemetry = tt;
  upstream_base_url = [];
  upstream_api_key = [];
  default_provider = codes "ai";
  providers = [];
  log_recent = pos 4;
  clients = record { name = codes "app"; enabled = true; token = []; rate_limit_rpm = pos 2 } ∷ [];
  cors_enabled = false;
  cors_origins = [];
}

abbrev told : Seen Unit
told = record {
  cfg = console;
  metrics = record { totals = new_metrics; providers = []; circuits = [] };
  logs = refused ∷ [];
  now = 9;
}

abbrev widgets : Widgets Unit Unit Unit
widgets = record {
  new_inner = tt;
  table_message = λ key b. b;
  new_viewport = tt;
  viewport_message = λ key v. v;
  viewport_size = λ across down v. v;
  show_config = λ seen across v. v;
  show_help_text = λ section v. v;
}

-- The terminal is widened, and the screen refreshed.
abbrev widened : List (Seen Unit × Message Unit)
widened = (told, window_size (pos 130) (pos 40)) ∷ (told, tick) ∷ []

large_enough :
    is_tiny (run_messages writing widgets (new_model writing widgets told) widened).layout ≡ false
unfolding run_messages gem_gate.Terminal.Update.update resize calculate_layout update_all new_model
    refresh update_config_viewport update_client_rows update_provider_rows update_log_rows
large_enough = refl

run_messages-RowsFit_example :
    let m = run_messages writing widgets (new_model writing widgets told) widened in
    RowsFit m.log_table × RowsFit m.provider_table × RowsFit m.client_table
run_messages-RowsFit_example = run_messages-RowsFit writing widgets told widened large_enough
