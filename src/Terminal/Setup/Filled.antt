-- ===== src/Terminal/Setup/Filled.antt =====
-- What the wizard's result holds when it ends by the operator's will.
use gem_gate.Prelude.{
  Bool, true, false, ◌≡◌, refl, sym, subst, inl, inr, List, [], ◌∷◌, ◌++◌, arith, if◌then◌else◌,
  Bool-cases,
}
use gem_gate.Text.{Text, is_empty, trim_space, to_lower, lower_byte, has_prefix, cut_prefix}
use gem_gate.Terminal.Setup.{
  SetupFields, SetupModel, blank, access_token, client_token_prefix, new_setup, validate_all,
  SetupMessage, window_size, key_press, other_message, enter, update, run_setup, result,
}

abbrev pub Filled : SetupFields → Type 0
Filled f =
    (blank f.api_key_text ≡ false)
    × (blank f.token_text ≡ false)
    × (blank f.listen_text ≡ false)
    × (blank f.client_name_text ≡ false)

validate_all-Filled : (m : SetupModel) → is_empty (validate_all m) ≡ true → Filled m.fields
unfolding validate_all
validate_all-Filled m h = ground arith

enter-Filled : (m : SetupModel) → (enter m).1 ≡ true → Filled (enter m).0.fields
unfolding enter
enter-Filled m h = ground (arith, validate_all-Filled m)

-- A message that ends the wizard cancels it or submits filled fields.
update-Filled :
    (m : SetupModel) (message : SetupMessage)
    → (update m message).1 ≡ true
    → (update m message).0.cancelled ≡ false
    → Filled (update m message).0.fields
unfolding update
update-Filled m (window_size w) h c = cc
update-Filled m other_message h c = cc
update-Filled m (key_press key) h c = ground (arith, enter-Filled m)

run-Filled :
    (m : SetupModel) (messages : List SetupMessage)
    → (run_setup m messages).1 ≡ true
    → (run_setup m messages).0.cancelled ≡ false
    → Filled (run_setup m messages).0.fields
unfolding run_setup
run-Filled m [] h c = cc
run-Filled m (message ∷ messages) h c =
    ground (arith, update-Filled m message, run-Filled (update m message).0 messages)

prefix_kept :
    (s : Text) → has_prefix (to_lower (client_token_prefix ++ s)) client_token_prefix ≡ true
unfolding to_lower has_prefix lower_byte cut_prefix
prefix_kept s = refl

access_token-prefixed :
    (s : Text) → has_prefix (to_lower (access_token s)) client_token_prefix ≡ true
unfolding access_token
access_token-prefixed s =
    let t = trim_space s in
    let P = λ (b : Bool).
      has_prefix (to_lower (if b then t else client_token_prefix ++ t)) client_token_prefix
      ≡ true in
    elim (Bool-cases (has_prefix (to_lower t) client_token_prefix)) [
      | inl e ↦ subst P (sym e) e
      | inr e ↦ subst P (sym e) (prefix_kept t)
    ]

-- Whatever keys are pressed, in whatever order: when the wizard is ended by its operator and is not
-- cancelled, the result's key, address and client name are not blank, and its token is not either
-- and starts with gg-, in any case.
pub run_setup-Filled :
    (path random : Text) (messages : List SetupMessage)
    → let ended = run_setup (new_setup path random) messages in
      ended.1 ≡ true
      → (result ended.0).was_cancelled ≡ false
      → (is_empty (result ended.0).gemini_api_key ≡ false)
        × (is_empty (result ended.0).listen_address ≡ false)
        × (is_empty (result ended.0).client ≡ false)
        × (blank ended.0.fields.token_text ≡ false)
        × (has_prefix (to_lower (result ended.0).gemgate_token) client_token_prefix ≡ true)
unfolding result
run_setup-Filled path random messages h c =
    let f = run-Filled (new_setup path random) messages h c in
    let token = (run_setup (new_setup path random) messages).0.fields.token_text in
    (f.0, f.2, f.3, f.1, access_token-prefixed (trim_space token))
