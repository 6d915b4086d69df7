-- ===== src/SpiHost/WitInterface.antt =====
-- The interface names of crates/geonosis-spi-host/src/dispatch.rs.
use geonosis.Base.{String}

-- `WitInterfaceName`, its text
abbrev pub WitInterfaceName : Type 0
WitInterfaceName = String

abbrev pub authn : WitInterfaceName
authn = "geonosis:authn@0.1.0"

abbrev pub mapper : WitInterfaceName
mapper = "geonosis:mapper@0.1.0"

abbrev pub event : WitInterfaceName
event = "geonosis:event@0.1.0"

abbrev pub policy : WitInterfaceName
policy = "geonosis:policy@0.1.0"

abbrev pub user_storage : WitInterfaceName
user_storage = "geonosis:user-storage@0.1.0"

abbrev pub broker_adapter : WitInterfaceName
broker_adapter = "geonosis:broker-adapter@0.1.0"

abbrev pub user_profile_validator : WitInterfaceName
user_profile_validator = "geonosis:user-profile-validator@0.1.0"

abbrev pub ui_component : WitInterfaceName
ui_component = "geonosis:ui-component@0.1.0"

abbrev pub host : WitInterfaceName
host = "geonosis:host@0.1.0"
