-- ===== src/Openflow/Caches/Laws.antt =====
-- The caches of the client as a whole: reading back what was written, and what a flow command
-- leaves alone.
use ciccni.Base.{
  String, ◌≡◌, refl, ap, ◌∙◌, subst, ◌≢◌, Bool, true, false, List, [], ◌∷◌, ◌++◌, lookup, insert,
  string_eq, lookup-insert, lookup-insert_self, arith, ok, err, add_failed, delete_failed,
}
use ciccni.Binding.Switch.{Command, Switch, plus_one, minus_one, update_status}
use ciccni.Binding.Flow.{
  Flow, add_flow, delete_flow, add_command, delete_command, format_with_actions, format_matches,
}
use ciccni.Openflow.State.{Client, FlowCache, FlowCategoryCache, add, delete, with_switch}
use ciccni.Openflow.Caches.{
  Category, node_flows, pod_flows, service_flows, general_flows, category, with_category,
  flow_cache, set_flow_cache, or_empty,
}

-- the commands that the client's switch has run, and whether it would run one more
abbrev pub log : Client → List Command
log c = c.switch.log

abbrev pub accepts : Client → Command → Bool
accepts c cmd = c.switch.executor c.switch.log cmd

-- An executor that has run the commands of the log runs those of the list, one after the other.
abbrev pub Runs : (List Command → Command → Bool) → List Command → List Command → Type 0
Runs executor done [] = Unit {0}
Runs executor done (cmd ∷ cmds) = (executor done cmd ≡ true) × Runs executor (done ++ cmd ∷ []) cmds

-- It runs those of the list, and then refuses the command.
abbrev pub Halts : (List Command → Command → Bool) → List Command → List Command → Command → Type 0
Halts executor done [] last = executor done last ≡ false
Halts executor done (cmd ∷ cmds) last =
    (executor done cmd ≡ true) × Halts executor (done ++ cmd ∷ []) cmds last

-- The client's switch runs the commands; it runs them and refuses one after them.
abbrev pub Takes : Client → List Command → Type 0
Takes c cmds = Runs c.switch.executor c.switch.log cmds

abbrev pub Refuses : Client → List Command → Command → Type 0
Refuses c cmds last = Halts c.switch.executor c.switch.log cmds last

-- One more command in front, for a client whose switch has run it.
module _ (cmd : Command) (c c' : Client) (accepted : accepts c cmd ≡ true)
    (same : c'.switch.executor ≡ c.switch.executor) (commands : log c' ≡ log c ++ cmd ∷ []) where
  pub Takes-cons : (cmds : List Command) → Takes c' cmds → Takes c (cmd ∷ cmds)
  Takes-cons cmds h = (accepted, coe 0 1 (i. Runs (same i) (commands i) cmds) h)

  pub Refuses-cons :
      (cmds : List Command) (last : Command) → Refuses c' cmds last → Refuses c (cmd ∷ cmds) last
  Refuses-cons cmds last h = (accepted, coe 0 1 (i. Halts (same i) (commands i) cmds last) h)

pub category-with_category :
    (cat : Category) (m : FlowCategoryCache) (c : Client) → category cat (with_category cat m c) ≡ m
category-with_category node_flows m c = refl
category-with_category pod_flows m c = refl
category-with_category service_flows m c = refl
category-with_category general_flows m c = refl

pub log-with_category :
    (cat : Category) (m : FlowCategoryCache) (c : Client)
    → (with_category cat m c).switch ≡ c.switch
log-with_category node_flows m c = refl
log-with_category pod_flows m c = refl
log-with_category service_flows m c = refl
log-with_category general_flows m c = refl

pub category-with_switch :
    (cat : Category) (s : Switch) (c : Client) → category cat (with_switch c s) ≡ category cat c
category-with_switch node_flows s c = refl
category-with_switch pod_flows s c = refl
category-with_switch service_flows s c = refl
category-with_switch general_flows s c = refl

pub flow_cache-set :
    (cat : Category) (key : String) (m : FlowCache) (c : Client)
    → flow_cache cat key (set_flow_cache cat key m c) ≡ m
flow_cache-set cat key m c = ground (
  arith,
  category-with_category cat (insert key m (category cat c)) c,
  lookup-insert_self key m (category cat c),
)

pub lookup-set_ne :
    (cat : Category) (key j : String) (m : FlowCache) (c : Client)
    → j ≢ key
    → lookup j (category cat (set_flow_cache cat key m c)) ≡ lookup j (category cat c)
lookup-set_ne cat key j m c h = ground (
  arith,
  category-with_category cat (insert key m (category cat c)) c,
  lookup-insert j key m (category cat c),
)

-- The switch after a command that it refused.
abbrev pub refused : Command → Client → Client
refused cmd c = with_switch c (record c.switch { log = log c ++ cmd ∷ [] })

-- Add and Delete run one command, and change nothing but the switch. If the command fails, so do
-- they.
module _ (f : Flow) (c : Client) where
  pub add-accepted :
      accepts c (add_command f) ≡ true
      → (s : Switch) × (add f c ≡ (ok tt, with_switch c s))
        × (s.log ≡ log c ++ add_command f ∷ [])
        × (s.executor ≡ c.switch.executor)
  unfolding add add_flow
  add-accepted h = (
    update_status f.table plus_one (record c.switch { log = log c ++ add_command f ∷ [] }),
    rw h refl,
    refl,
    refl,
  )

  pub add-refused :
      accepts c (add_command f) ≡ false
      → add f c ≡ (err (add_failed (format_with_actions f)), refused (add_command f) c)
  unfolding add add_flow
  add-refused h = rw h refl

  pub delete-accepted :
      accepts c (delete_command f) ≡ true
      → (s : Switch) × (delete f c ≡ (ok tt, with_switch c s))
        × (s.log ≡ log c ++ delete_command f ∷ [])
        × (s.executor ≡ c.switch.executor)
  unfolding delete delete_flow
  delete-accepted h = (
    update_status f.table minus_one (record c.switch { log = log c ++ delete_command f ∷ [] }),
    rw h refl,
    refl,
    refl,
  )

  pub delete-refused :
      accepts c (delete_command f) ≡ false
      → delete f c ≡ (err (delete_failed (format_matches f)), refused (delete_command f) c)
  unfolding delete delete_flow
  delete-refused h = rw h refl

-- From `c` to `c'` one command was run, the flow cache of the key became `m`, and the flow caches of
-- the other keys stayed.
pub record Moves (cat : Category) (key : String) (cmd : Command) (m : FlowCache) (c c' : Client)
    : Type 0 where
  pub commands : log c' ≡ log c ++ cmd ∷ []
  pub executor : c'.switch.executor ≡ c.switch.executor
  pub cached : flow_cache cat key c' ≡ m
  pub others : (j : String) → j ≢ key → lookup j (category cat c') ≡ lookup j (category cat c)

module _ (cat : Category) (key : String) (cmd : Command) (c : Client) where
  -- the command was run, and the flow cache then written
  pub Moves-set :
      (m : FlowCache) (s : Switch)
      → s.log ≡ log c ++ cmd ∷ []
      → s.executor ≡ c.switch.executor
      → Moves cat key cmd m c (set_flow_cache cat key m (with_switch c s))
  Moves-set m s e x = record {
    executor = ap (λ (t : Switch). t.executor) (log-with_category cat _ (with_switch c s)) ∙ x;
    commands = ap (λ (t : Switch). t.log) (log-with_category cat _ (with_switch c s)) ∙ e;
    cached = flow_cache-set cat key m (with_switch c s);
    others = λ j h.
        lookup-set_ne cat key j m (with_switch c s) h
        ∙ ap (lookup j) (category-with_switch cat s c);
  }

  -- the same, where what is written is made from what was there
  pub Moves-update :
      (g : FlowCache → FlowCache) (s : Switch)
      → s.log ≡ log c ++ cmd ∷ []
      → s.executor ≡ c.switch.executor
      → let c1 = with_switch c s in
        Moves cat key cmd
          (g (flow_cache cat key c))
          c
          (set_flow_cache cat key (g (flow_cache cat key c1)) c1)
  Moves-update g s e x =
      subst
        (λ m.
          Moves cat key cmd (g m) c
            (set_flow_cache cat key (g (flow_cache cat key (with_switch c s))) (with_switch c s)))
        (ap (λ m. or_empty (lookup key m)) (category-with_switch cat s c)) (Moves-set _ s e x)

  -- the command was refused
  pub Moves-refused : Moves cat key cmd (flow_cache cat key c) c (refused cmd c)
  Moves-refused = record {
    commands = refl;
    executor = refl;
    cached = ap (λ m. or_empty (lookup key m)) (category-with_switch cat _ c);
    others = λ j h. ap (lookup j) (category-with_switch cat _ c);
  }
