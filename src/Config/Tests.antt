-- ===== src/Config/Tests.antt =====
-- The system configuration at concrete values.
use onepanel.Base.{
  String, ◌≡◌, refl, none, some, List, [], ◌∷◌, ◌==◌, Map, lookup, insert, Error, plain, Result, ok,
  err, if◌then◌else◌,
}
use onepanel.Config.{Source, NodePoolOption, get_system_config}
use onepanel.Config.Cache.{IsConfig, loaded, get_system_config-IsConfig, get_system_config_half}

abbrev values : Map String
values = ("ONEPANEL_DOMAIN", "example.com") ∷ ("applicationNodePoolOptions", "y") ∷ []

abbrev secret : Map String
secret = ("databaseUsername", "u") ∷ ("databasePassword", "p") ∷ ("hmac", "h") ∷ []

abbrev source : Source
source = record { config_map = ok (some values); secret = ok secret; decode = λ s. ok s }

abbrev corrupt : Error
corrupt = plain "illegal base64 data"

abbrev bad_source : Source
bad_source = record source { decode = λ s. if s == "p" then err corrupt else ok s }

abbrev config : Map String
config =
    ("ONEPANEL_DOMAIN", "example.com")
    ∷ ("applicationNodePoolOptions", "y")
    ∷ ("databaseUsername", "u")
    ∷ ("databasePassword", "p")
    ∷ ("hmac", "h")
    ∷ []

abbrev small : NodePoolOption
small = record { name = "Small"; value = "s"; resources = "" }

abbrev unmarshal : String → Result (List NodePoolOption)
unmarshal _ = ok (small ∷ [])

get_system_config-IsConfig_example :
    ((m k : Map String) × (ok (some values) ≡ ok (some m))
      × (ok secret ≡ ok k)
      × IsConfig source.decode m k config)
    × ((get_system_config source none).1 ≡ some config)
    × ((later : Source)
        → get_system_config later (get_system_config source none).1
          ≡ (ok (loaded config), some config))
get_system_config-IsConfig_example =
    get_system_config-IsConfig source config (unfold get_system_config insert lookup in refl)

get_system_config_half_example :
    ((get_system_config bad_source none).0
      ≡ ok (record { config = some (insert "databaseUsername" "u" values); error = some corrupt }))
    × (get_system_config source (get_system_config bad_source none).1 ≡ (
      ok (loaded (insert "databaseUsername" "u" values)),
      some (insert "databaseUsername" "u" values),
    ))
get_system_config_half_example =
    get_system_config_half bad_source source values secret "u" corrupt refl refl
      (unfold lookup in refl) (unfold lookup in refl)
