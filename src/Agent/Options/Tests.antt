-- ===== src/Agent/Options/Tests.antt =====
-- A configuration file that cannot be read.
use ciccni.Base.{String, Outcome, err, external}
use ciccni.Agent.Options.{AgentConfig, empty_config, start_config}
use ciccni.Agent.Options.Chosen.{Chosen, start_config-Chosen}

abbrev unreadable : String → Outcome AgentConfig
unreadable file = err (external "no such file")

start_config-Chosen_example :
    Chosen unreadable "agent.yaml" (start_config unreadable "agent.yaml" empty_config)
start_config-Chosen_example = start_config-Chosen unreadable "agent.yaml"
