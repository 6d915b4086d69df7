-- ===== src/SpiHost/Dispatch.antt =====
-- The dispatch mode of each interface, crates/geonosis-spi-host/src/dispatch.rs.
use geonosis.Base.{if◌then◌else◌, ◌==◌, string_eq}
use geonosis.SpiHost.WitInterface.{WitInterfaceName}
use geonosis.SpiHost.WitInterface

pub data DispatchMode : Type 0 where
  first_match named_select chain fire_forget first_decision named_attach : DispatchMode

unfoldable pub dispatch_mode : WitInterfaceName → DispatchMode
dispatch_mode name =
    if name == WitInterface.user_storage
    then first_match
    else if name == WitInterface.mapper
    then chain
    else if name == WitInterface.event
    then fire_forget
    else if name == WitInterface.policy
    then first_decision
    else if name == WitInterface.user_profile_validator
    then named_attach
    else named_select
