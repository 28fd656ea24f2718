-- ===== src/Terminal/Update.antt =====
-- internal/tui/model.go: `Update`, with `setActive`, `setFilter`, `menuIndex` and the keys of
-- internal/tui/keys.go. A key is the text that Bubble Tea gives for it.
pub mod Consistent
pub mod Rows
use gem_gate.Prelude.{
  ℕ, zero, suc, ◌+◌, ◌-◌, ◌%◌, Bool, true, false, not, ℤ, Option, none, some, List, [], ◌∷◌, leb,
  ltb, ◌==◌, if◌then◌else◌,
}
use gem_gate.Text.{Text, codes, text_eq, contains}
use gem_gate.Terminal.Helpers.{Writing}
use gem_gate.Terminal.Screen.{
  LogFilter, filter_all, filter_warnings, filter_errors, filter_auth, Table, Seen, Model, Widgets,
  tab_count, tab_config, update_log_rows, update_config_viewport, update_help_viewport, refresh,
  resize,
}

pub data Message (D : Type 0) : Type 0 where
  window_size : ℤ → ℤ → Message D
  key_press : Text → Message D
  tick : Message D
  other_message : Text → Message D

-- The command that `Update` returns; any but these two is none or a widget's own.
pub data Command : Type 0 where
  quit tick_again other_command : Command

abbrev quit_keys : List Text
quit_keys = codes "q" ∷ codes "ctrl+c" ∷ []

abbrev pause_keys : List Text
pause_keys = codes " " ∷ codes "p" ∷ []

abbrev next_keys : List Text
next_keys = codes "tab" ∷ codes "]" ∷ []

abbrev previous_keys : List Text
previous_keys = codes "shift+tab" ∷ codes "[" ∷ []

unfoldable pub menu_index : Text → Option ℕ
menu_index v =
    if text_eq v (codes "1")
    then some 0
    else if text_eq v (codes "2")
    then some 1
    else if text_eq v (codes "3")
    then some 2
    else if text_eq v (codes "4")
    then some 3
    else if text_eq v (codes "5")
    then some 4
    else none

unfoldable pub filter_key : Text → Option LogFilter
filter_key v =
    if text_eq v (codes "a")
    then some filter_all
    else if text_eq v (codes "w")
    then some filter_warnings
    else if text_eq v (codes "e")
    then some filter_errors
    else if text_eq v (codes "u")
    then some filter_auth
    else none

module _ {B V D : Type 0} (w : Writing) (widgets : Widgets B V D) where
  unfoldable pub set_active : ℕ → Model B V D → Model B V D
  set_active next m =
      if leb tab_count next
      then m
      else (let shown = record m { active = next; show_help = false } in
          if next == tab_config then update_config_viewport w widgets shown else shown)

  unfoldable pub set_filter : LogFilter → Model B V D → Model B V D
  set_filter f m = update_log_rows w widgets (record m { filter = f })

  -- A message that the screen does not take goes to the active section's widget.
  unfoldable pub to_widget : Text → Model B V D → Model B V D
  to_widget key m =
      let inner = λ (t : Table B). record t { inner = widgets.table_message key t.inner } in
      if m.active == 1
      then record m { log_table = inner m.log_table }
      else if m.active == 2
      then record m { provider_table = inner m.provider_table }
      else if m.active == 3
      then record m { client_table = inner m.client_table }
      else if m.active == tab_config
      then record m { config_viewport = widgets.viewport_message key m.config_viewport }
      else m

  unfoldable pub help_key : Text → Model B V D → Model B V D
  help_key key m =
      if text_eq key (codes "?")
      then record m { show_help = false }
      else if text_eq key (codes "esc")
      then record m { show_help = false }
      else record m { help_viewport = widgets.viewport_message key m.help_viewport }

  unfoldable pub section_key : Text → Model B V D → Model B V D
  section_key key m = elim (menu_index key) [
    | some i ↦ set_active i m
    | none ↦ elim (filter_key key) [
      | none ↦ to_widget key m
      | some f ↦ if m.active == 1 then set_filter f m else to_widget key m
    ]
  ]

  unfoldable pub screen_key : Seen D → Text → Model B V D → Model B V D
  screen_key seen key m =
      if text_eq key (codes "?")
      then update_help_viewport w widgets (record m { show_help = true })
      else if text_eq key (codes "r")
      then refresh w widgets seen m
      else if contains pause_keys key
      then record m { paused = not m.paused }
      else if contains next_keys key
      then set_active ((m.active + 1) % tab_count) m
      else if contains previous_keys key
      then set_active ((m.active + tab_count - 1) % tab_count) m
      else if text_eq key (codes "esc")
      then (if m.active == 0 then m else set_active 0 m)
      else section_key key m

  -- `seen` is what the gateway tells at the time of the message.
  unfoldable pub update : Seen D → Message D → Model B V D → Model B V D × Command
  update seen (window_size width height) m =
      (resize w widgets (record m { width = width; height = height }), other_command)
  update seen (key_press key) m =
      if contains quit_keys key
      then (m, quit)
      else if m.show_help
      then (help_key key m, other_command)
      else (screen_key seen key m, other_command)
  update seen tick m = (if m.paused then m else refresh w widgets seen m, tick_again)
  update seen (other_message text) m = (to_widget text m, other_command)
