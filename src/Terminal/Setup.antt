-- ===== src/Terminal/Setup.antt =====
-- internal/tui/setup.go: the wizard that makes the first configuration file. A key is the text that
-- Bubble Tea gives for it; a single byte of valid UTF-8 is an ASCII character, so that a field's last
-- rune is its last byte.
pub mod Filled
use mathlib.Core.List.{reverse}
use gem_gate.Prelude.{
  ℕ, Bool, true, false, not, ◌&&◌, ℤ, List, [], ◌∷◌, ◌++◌, leb, ◌==◌, if◌then◌else◌, length, drop,
}
use gem_gate.Text.{Text, codes, text_eq, is_empty, trim_space, to_lower, has_prefix, trim_prefix}

abbrev pub client_token_prefix : Text
client_token_prefix = codes "gg-"

unfoldable pub access_token : Text → Text
access_token token =
    let trimmed = trim_space token in
    if has_prefix (to_lower trimmed) client_token_prefix
    then trimmed
    else client_token_prefix ++ trimmed

unfoldable pub local_base_url : Text → Text
local_base_url addr =
    let a = trim_space addr in
    if is_empty a
    then codes "http://localhost" ++ a
    else if has_prefix a (codes ":")
    then codes "http://localhost" ++ a
    else if has_prefix a (codes "0.0.0.0:")
    then codes "http://localhost:" ++ trim_prefix a (codes "0.0.0.0:")
    else codes "http://" ++ a

pub data SetupField : Type 0 where
  api_key token listen client_name : SetupField

pub record SetupFields : Type 0 where
  pub api_key_text : Text
  pub token_text : Text
  pub listen_text : Text
  pub client_name_text : Text

pub record SetupModel : Type 0 where
  pub fields : SetupFields
  pub active : SetupField
  pub err : Text
  pub submitted : Bool
  pub cancelled : Bool
  pub config_path : Text
  pub width : ℤ

pub record SetupResult : Type 0 where
  pub gemini_api_key : Text
  pub gemgate_token : Text
  pub listen_address : Text
  pub client : Text
  pub path : Text
  pub was_cancelled : Bool

abbrev pub field_of : SetupFields → SetupField → Text
field_of f api_key = f.api_key_text
field_of f token = f.token_text
field_of f listen = f.listen_text
field_of f client_name = f.client_name_text

abbrev pub with_field : SetupFields → SetupField → Text → SetupFields
with_field f api_key s = record f { api_key_text = s }
with_field f token s = record f { token_text = s }
with_field f listen s = record f { listen_text = s }
with_field f client_name s = record f { client_name_text = s }

abbrev pub label_of : SetupField → Text
label_of api_key = codes "Gemini API Key"
label_of token = codes "GemGate Token (your client bearer token)"
label_of listen = codes "Listen address"
label_of client_name = codes "Client name"

-- `m.active < sfDone-1`
abbrev pub is_last : SetupField → Bool
is_last client_name = true
is_last _ = false

-- `m.active++` and `m.active--`, each under its test.
abbrev pub next_field : SetupField → SetupField
next_field api_key = token
next_field token = listen
next_field listen = client_name
next_field client_name = client_name

abbrev pub previous_field : SetupField → SetupField
previous_field api_key = api_key
previous_field token = api_key
previous_field listen = token
previous_field client_name = listen

-- `random` is the hexadecimal text of the random bytes.
unfoldable pub new_setup : Text → Text → SetupModel
unfolding access_token
new_setup path random = record {
  fields = record {
    api_key_text = [];
    token_text = access_token random;
    listen_text = codes ":8080";
    client_name_text = codes "local-dev";
  };
  active = api_key;
  err = [];
  submitted = false;
  cancelled = false;
  config_path = path;
  width = ℤ.pos 0;
}

abbrev pub blank : Text → Bool
blank s = is_empty (trim_space s)

abbrev empty_error : SetupField → Text
empty_error f = label_of f ++ codes " cannot be empty"

unfoldable pub validate_current : SetupModel → Text
validate_current m = if blank (field_of m.fields m.active) then empty_error m.active else []

-- The loop over the fields, from the first one on.
abbrev check_field : SetupFields → SetupField → Text → Text
check_field f field later = if blank (field_of f field) then empty_error field else later

unfoldable pub validate_all : SetupModel → Text
validate_all m =
    check_field m.fields api_key (
      check_field m.fields token
        (check_field m.fields listen (check_field m.fields client_name [])))

pub data SetupMessage : Type 0 where
  window_size : ℤ → SetupMessage
  key_press : Text → SetupMessage
  other_message : SetupMessage

unfoldable pub enter : SetupModel → SetupModel × Bool
unfolding validate_current validate_all
enter m =
    if not (is_last m.active)
    then (let e = validate_current m in
        (
          if is_empty e
              then record m { err = []; active = next_field m.active }
              else record m { err = e },
          false,
        ))
    else (let e = validate_all m in
        if is_empty e then (record m { submitted = true }, true) else (record m { err = e }, false))

-- The field without its last rune.
abbrev pub without_last : Text → Text
without_last s = reverse (drop 1 (reverse s))

abbrev printable : Text → Bool
printable (c ∷ []) = leb 32 c
printable _ = false

unfoldable pub typed : SetupModel → Text → SetupModel
typed m key =
    if printable key
    then record m {
      fields = with_field m.fields m.active (field_of m.fields m.active ++ key);
      err = [];
    }
    else m

-- The model after a message, and whether it quits.
unfoldable pub update : SetupModel → SetupMessage → SetupModel × Bool
unfolding enter typed
update m (window_size w) = (record m { width = w }, false)
update m other_message = (m, false)
update m (key_press key) =
    if text_eq key (codes "ctrl+c")
    then (record m { cancelled = true }, true)
    else if text_eq key (codes "esc")
    then (record m { cancelled = true }, true)
    else if text_eq key (codes "enter")
    then enter m
    else if text_eq key (codes "tab")
    then (record m { active = next_field m.active }, false)
    else if text_eq key (codes "shift+tab")
    then (record m { active = previous_field m.active }, false)
    else if text_eq key (codes "backspace")
    then (
      record m {
        fields = with_field m.fields m.active (without_last (field_of m.fields m.active));
        err = [];
      },
      false,
    )
    else (typed m key, false)

-- The program's messages until the model quits; `false` where they end before, which is what an
-- interrupt from outside does.
unfoldable pub run_setup : SetupModel → List SetupMessage → SetupModel × Bool
unfolding update
run_setup m [] = (m, false)
run_setup m (message ∷ messages) =
    let (m', quit) = update m message in
    elim quit [ true ↦ (m', true) | false ↦ run_setup m' messages ]

unfoldable pub result : SetupModel → SetupResult
unfolding access_token
result m = record {
  gemini_api_key = trim_space m.fields.api_key_text;
  gemgate_token = access_token (trim_space m.fields.token_text);
  listen_address = trim_space m.fields.listen_text;
  client = trim_space m.fields.client_name_text;
  path = m.config_path;
  was_cancelled = m.cancelled;
}

-- The text that `WriteConfig` writes.
unfoldable pub config_text : SetupResult → Text
config_text r =
    codes "server:\n  listen: \""
    ++ (r.listen_address
        ++ (codes "\"\n  read_timeout: \"30s\"\n  write_timeout: \"0s\"\n"
            ++ (codes "  idle_timeout: \"120s\"\n  public_health: true\n"
                ++ (codes "  request_body_limit: \"32MiB\"\n\nupstream:\n"
                    ++ (codes
                          "  base_url: \"https://generativelanguage.googleapis.com\"\n  api_key: \""
                        ++ (r.gemini_api_key
                            ++ (codes "\"\n  timeout: \"0s\"\n\nclients:\n  - name: \""
                                ++ (r.client
                                    ++ (codes "\"\n    token: \""
                                        ++ (r.gemgate_token
                                            ++ (codes
                                                  "\"\n    enabled: true\n    rate_limit_rpm: 0\n\n"
                                                ++ codes
                                                    "logging:\n  recent: 300\n  log_body: false\n  log_headers: false\n")))))))))))
