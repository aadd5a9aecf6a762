-- ===== src/Execution/Precedence.antt =====
-- The variables of a container after the injection.
use onepanel.Base.{String, ◌==◌, Option, none, some, List, [], ◌∷◌, Map, if◌then◌else◌}
use onepanel.Execution.Workflow.{EnvVar}
use onepanel.Execution.Variables.{config_value}

-- the value of the first variable of a name
unfoldable pub env_value : String → List EnvVar → Option String
env_value name [] = none
env_value name (e ∷ es) =
    let rest = env_value name es in if e.name == name then some e.value else rest

abbrev pub or_else : Option String → Option String → Option String
or_else (some v) d = some v
or_else none d = d

-- the variables that the program sets
unfoldable pub system_value : Map String → String → Option String
unfolding config_value
system_value config n =
    if "ONEPANEL_API_URL" == n
    then some (config_value config "ONEPANEL_API_URL")
    else if "ONEPANEL_FQDN" == n
    then some (config_value config "ONEPANEL_FQDN")
    else if "ONEPANEL_DOMAIN" == n
    then some (config_value config "ONEPANEL_DOMAIN")
    else if "ONEPANEL_PROVIDER" == n
    then some (config_value config "ONEPANEL_PROVIDER")
    else if "ONEPANEL_RESOURCE_NAMESPACE" == n
    then some "{{workflow.namespace}}"
    else if "ONEPANEL_RESOURCE_UID" == n
    then some "{{workflow.name}}"
    else none
