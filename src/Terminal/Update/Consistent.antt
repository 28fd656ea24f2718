-- ===== src/Terminal/Update/Consistent.antt =====
-- internal/tui/model.go: what holds of the screen after any messages.
use gem_gate.Prelude.{
  ℕ, ◌+◌, ◌-◌, ◌%◌, Bool, true, false, not, List, [], ◌∷◌, arith, refl, leb, if◌then◌else◌, Option,
  none, some, ◌==◌,
}
use gem_gate.Text.{Text, codes, text_eq, contains}
use gem_gate.Terminal.Helpers.{Writing}
use gem_gate.Terminal.Screen.{Model, Seen, Widgets, LogFilter, update_log_rows}
use gem_gate.Terminal.Update.{
  Command, quit, other_command, Message, window_size, key_press, tick, other_message, set_active,
  set_filter, to_widget, help_key, section_key, screen_key, menu_index, filter_key, update,
}
use gem_gate.Terminal.Screen.Consistent.{
  IsConsistent, if_keeps, if_splits, shown-IsConsistent, config-IsConsistent, help-IsConsistent,
  refresh-IsConsistent, resize-IsConsistent,
}

module _ {B V D : Type 0} (w : Writing) (widgets : Widgets B V D) where
  set_active-IsConsistent :
      (next : ℕ) (m : Model B V D)
      → IsConsistent w widgets m
      → IsConsistent w widgets (set_active w widgets next m)
  unfolding set_active
  set_active-IsConsistent next m c =
      if_splits w widgets (leb 5 next) _ _ (λ t. c)
        (λ t.
          let shown : IsConsistent w widgets (record m { active = next; show_help = false }) =
            record { facts = (ground arith, c.facts.1, c.facts.2, c.facts.3) } in
          if_keeps w widgets (next == 4) _ _ (config-IsConsistent w widgets _ shown) shown)

  set_filter-IsConsistent :
      (f : LogFilter) (m : Model B V D)
      → IsConsistent w widgets m
      → IsConsistent w widgets (set_filter w widgets f m)
  unfolding set_filter update_log_rows
  set_filter-IsConsistent f m c = record {
    facts = (c.facts.0, refl, c.facts.2, λ h. (refl, (c.facts.3 h).1, (c.facts.3 h).2));
  }

  to_widget-IsConsistent :
      (text : Text) (m : Model B V D)
      → IsConsistent w widgets m
      → IsConsistent w widgets (to_widget w widgets text m)
  unfolding to_widget
  to_widget-IsConsistent text m c =
      if_keeps w widgets (m.active == 1) _ _ (record { facts = c.facts })
        (if_keeps w widgets (m.active == 2) _ _ (record { facts = c.facts })
          (if_keeps w widgets (m.active == 3) _ _ (record { facts = c.facts })
            (if_keeps w widgets (m.active == 4) _ _ (record { facts = c.facts }) c)))

  filtered-IsConsistent :
      (o : Option LogFilter) (key : Text) (m : Model B V D)
      → IsConsistent w widgets m
      → IsConsistent w widgets (elim o [
        | none ↦ to_widget w widgets key m
        | some f ↦ if m.active == 1 then set_filter w widgets f m else to_widget w widgets key m
      ])
  filtered-IsConsistent none key m c = to_widget-IsConsistent key m c
  filtered-IsConsistent (some f) key m c =
      if_keeps w widgets (m.active == 1) _ _ (set_filter-IsConsistent f m c)
        (to_widget-IsConsistent key m c)

  section_key-IsConsistent :
      (key : Text) (m : Model B V D)
      → IsConsistent w widgets m
      → IsConsistent w widgets (section_key w widgets key m)
  unfolding section_key
  section_key-IsConsistent key m c =
      elim (menu_index key)
        as (λ o. IsConsistent w widgets (elim o [
          | some i ↦ set_active w widgets i m
          | none ↦ elim (filter_key key) [
            | none ↦ to_widget w widgets key m
            | some f ↦ if m.active == 1 then set_filter w widgets f m else to_widget w widgets key m
          ]
        ])) [
          | some i ↦ set_active-IsConsistent i m c
          | none ↦ filtered-IsConsistent (filter_key key) key m c
        ]

  screen_key-IsConsistent :
      (seen : Seen D) (key : Text) (m : Model B V D)
      → IsConsistent w widgets m
      → IsConsistent w widgets (screen_key w widgets seen key m)
  unfolding screen_key
  screen_key-IsConsistent seen key m c =
      if_keeps w widgets (text_eq key (codes "?")) _ _
        (help-IsConsistent w widgets _
          (shown-IsConsistent w widgets true m.paused m.config_viewport m.help_viewport c))
        (if_keeps w widgets (text_eq key (codes "r")) _ _ (refresh-IsConsistent w widgets seen m c)
          (if_keeps w widgets (contains (codes " " ∷ codes "p" ∷ []) key) _ _
            (shown-IsConsistent w widgets m.show_help (not m.paused) m.config_viewport
              m.help_viewport c)
            (if_keeps w widgets (contains (codes "tab" ∷ codes "]" ∷ []) key) _ _
              (set_active-IsConsistent ((m.active + 1) % 5) m c)
              (if_keeps w widgets (contains (codes "shift+tab" ∷ codes "[" ∷ []) key) _ _
                (set_active-IsConsistent ((m.active + 5 - 1) % 5) m c)
                (if_keeps w widgets (text_eq key (codes "esc")) _ _
                  (if_keeps w widgets (m.active == 0) _ _ c (set_active-IsConsistent 0 m c))
                  (section_key-IsConsistent key m c))))))

  help_key-IsConsistent :
      (key : Text) (m : Model B V D)
      → IsConsistent w widgets m
      → IsConsistent w widgets (help_key w widgets key m)
  unfolding help_key
  help_key-IsConsistent key m c =
      let closed =
        shown-IsConsistent w widgets false m.paused m.config_viewport m.help_viewport c in
      if_keeps w widgets (text_eq key (codes "?")) _ _ closed (
        if_keeps w widgets (text_eq key (codes "esc")) _ _ closed
          (shown-IsConsistent w widgets m.show_help m.paused m.config_viewport _ c))

  key-IsConsistent :
      (seen : Seen D) (key : Text) (m : Model B V D) (quits helps : Bool)
      → IsConsistent w widgets m
      → let next : Model B V D × Command =
          if quits
          then (m, quit)
          else if helps
          then (help_key w widgets key m, other_command)
          else (screen_key w widgets seen key m, other_command) in
        IsConsistent w widgets next.0
  key-IsConsistent seen key m true helps c = c
  key-IsConsistent seen key m false true c = help_key-IsConsistent key m c
  key-IsConsistent seen key m false false c = screen_key-IsConsistent seen key m c

  update-IsConsistent :
      (seen : Seen D) (message : Message D) (m : Model B V D)
      → IsConsistent w widgets m
      → IsConsistent w widgets (update w widgets seen message m).0
  unfolding update
  update-IsConsistent seen (window_size width height) m c =
      resize-IsConsistent w widgets (record m { width = width; height = height }) c.facts.0
        c.facts.1
  update-IsConsistent seen tick m c =
      if_keeps w widgets m.paused _ _ c (refresh-IsConsistent w widgets seen m c)
  update-IsConsistent seen (other_message text) m c = to_widget-IsConsistent text m c
  update-IsConsistent seen (key_press key) m c =
      key-IsConsistent seen key m (contains (codes "q" ∷ codes "ctrl+c" ∷ []) key) m.show_help c

  -- The messages, each with what the gateway tells at its time.
  unfoldable pub run_messages : Model B V D → List (Seen D × Message D) → Model B V D
  run_messages m [] = m
  run_messages m ((seen, message) ∷ rest) = run_messages (update w widgets seen message m).0 rest

  pub run_messages-IsConsistent :
      (m : Model B V D) (messages : List (Seen D × Message D))
      → IsConsistent w widgets m
      → IsConsistent w widgets (run_messages m messages)
  unfolding run_messages
  run_messages-IsConsistent m [] c = c
  run_messages-IsConsistent m ((seen, message) ∷ rest) c =
      run_messages-IsConsistent (update w widgets seen message m).0 rest
        (update-IsConsistent seen message m c)
